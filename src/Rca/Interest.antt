-- ===== src/Rca/Interest.antt =====
-- internal/rca/interest.go: the predicates that an investigation asks the sampler to keep traces by.
use tracing_bot.Prelude.{
  ℕ, ◌+◌, String, Bool, false, ◌||◌, List, [], ◌∷◌, ◌++◌, leb, str_eq, if◌then◌else◌, any, length,
}
use tracing_bot.Prelude.Assoc.{Assoc}
use Prim.Native.String.{◌++◌ as join}
use tracing_bot.Rca.Types.{Time, Investigation, Incident}

pub data PredicateScope : Type 0 where
  scope_investigation scope_recurrence : PredicateScope

pub record InterestPredicate : Type 0 where
  pub id : String
  pub tenant : String
  pub scope : PredicateScope
  pub source : String
  pub services : List String
  pub operations : List String
  pub attr_equals : Assoc String
  pub error_sig_ids : List String
  pub path_sigs : List ℕ
  pub trace_ids : List ℕ
  pub min_duration : ℕ
  pub errors_only : Bool
  pub narrow_level : ℕ
  pub hits : ℕ
  pub created_at : Time
  pub expires_at : Time

-- The loop of `dedupeTruncate` with what it has put out, which is also what it has seen.
unfoldable pub dedupe_loop : ℕ → List String → List String → List String
dedupe_loop max out [] = out
dedupe_loop max out (s ∷ rest) =
    let skip = dedupe_loop max out rest in
    let more = dedupe_loop max (out ++ s ∷ []) rest in
    if str_eq s "" || any (str_eq s) out
    then skip
    else if leb max (length (out ++ s ∷ []))
    then out ++ s ∷ []
    else more

unfoldable pub dedupe_truncate : List String → ℕ → List String
dedupe_truncate xs max = dedupe_loop max [] xs

abbrev pub blank : String → PredicateScope → String → Time → ℕ → InterestPredicate
blank tid scope inv_id now ttl = record {
  id = "";
  tenant = tid;
  scope = scope;
  source = join "rca:" inv_id;
  services = [];
  operations = [];
  attr_equals = [];
  error_sig_ids = [];
  path_sigs = [];
  trace_ids = [];
  min_duration = 0;
  errors_only = false;
  narrow_level = 0;
  hits = 0;
  created_at = now;
  expires_at = now + ttl;
}

unfoldable pub scope_predicate : String → Investigation → Incident → Time → ℕ → InterestPredicate
scope_predicate tid inv inc now ttl = record (blank tid scope_investigation inv.id now ttl) {
  services = dedupe_truncate (inc.epicenter_service ∷ inc.blast_radius) 32;
}

unfoldable pub recurrence_predicate :
    String → Investigation → List String → List ℕ → Time → ℕ → InterestPredicate
recurrence_predicate tid inv sigs paths now ttl =
    record (blank tid scope_recurrence inv.id now ttl) { error_sig_ids = sigs; path_sigs = paths }

abbrev pub default_scope_ttl : ℕ
default_scope_ttl = 1_800_000_000_000

abbrev pub default_recurrence_ttl : ℕ
default_recurrence_ttl = 86_400_000_000_000
