-- ===== src/Sampler/Predicates.antt =====
-- internal/sampler/predicate.go: the set of interest predicates, and the calls of impl.go on it. A
-- predicate set is copied on every write, so a call of it is one step.
pub mod Eviction
pub mod Owners
pub mod Bound
pub mod Runs
pub mod Effects
use Prim.Native.String.{◌++◌ as concat}
use tracing_bot.Prelude.Decimal.{decimal}
use tracing_bot.Prelude.{
  ℕ, zero, suc, ◌+◌, ◌*◌, ◌/◌, ◌%◌, ◌^◌, String, Bool, true, false, ◌&&◌, ◌||◌, not, Option, none,
  some, List, [], ◌∷◌, ◌++◌, ltb, leb, ◌==◌, str_eq, if◌then◌else◌, any, is_empty, length,
}
use tracing_bot.Prelude.Int.{ℤ, pos, leb_ℤ, pos_part}
use tracing_bot.Prelude.Assoc.{Assoc}

abbrev pub Time : Type 0
Time = ℕ

pub data PredicateScope : Type 0 where
  investigation recurrence : PredicateScope

abbrev pub is_recurrence : PredicateScope → Bool
is_recurrence investigation = false
is_recurrence recurrence = true

-- `MinDuration` is taken to be at least 0: a negative one behaves as 0.
pub record InterestPredicate : Type 0 where
  pub id : String
  pub tenant : String
  pub scope : PredicateScope
  pub source : String
  pub services : List String
  pub operations : List String
  pub attr_equals : Assoc String
  pub error_sig_ids : List String
  pub path_sigs : List ℕ  -- uint64
  pub trace_ids : List ℕ  -- a set of 128-bit ids
  pub min_duration : ℕ  -- nanoseconds
  pub errors_only : Bool
  pub narrow_level : ℕ
  pub hits : ℕ  -- uint64
  pub created_at : Time
  pub expires_at : Time

-- What `Match` reads of a `model.Trace`.
pub record Trace : Type 0 where
  pub trace_id : ℕ
  pub tenant : String
  pub duration_nanos : ℕ  -- uint64
  pub error_count : ℕ
  pub services : List String
  pub path_signature : ℕ

pub record InterestMatch : Type 0 where
  pub predicate_id : String
  pub scope : PredicateScope

pub record PredicateSet : Type 0 where
  pub snapshot : List InterestPredicate
  pub seq : ℕ
  pub max_preds : ℕ
  pub evicted_total : ℕ  -- uint64

-- `NewPredicateSetWithLimit`.
unfoldable pub new_predicate_set : ℤ → PredicateSet
new_predicate_set max_predicates = record {
  snapshot = [];
  seq = 0;
  max_preds = if leb_ℤ max_predicates (pos 0) then 32 else pos_part max_predicates;
  evicted_total = 0;
}

-- `time.Duration(t.DurationNanos)` is negative from 2^63 on.
unfoldable pub is_short : InterestPredicate → Trace → Bool
is_short p t =
    ltb 0 p.min_duration && (leb (2 ^ 63) t.duration_nanos || ltb t.duration_nanos p.min_duration)

unfoldable pub candidate_matches : InterestPredicate → Trace → Bool
candidate_matches p t =
    if any (λ i. i == t.trace_id) p.trace_ids
    then true
    else if any (λ s. s == t.path_signature) p.path_sigs
    then true
    else if not (is_empty p.services)
    then any (λ s. any (λ u. str_eq s u) t.services) p.services
    else is_empty p.path_sigs && is_empty p.error_sig_ids && is_empty p.trace_ids

-- The body of the loop of `Match`.
unfoldable pub wants : Trace → InterestPredicate → Bool
unfolding is_short candidate_matches
wants t p =
    not (is_short p t) && not (p.errors_only && not (ltb 0 t.error_count)) && candidate_matches p t

unfoldable pub first_wanting : Trace → List InterestPredicate → Option InterestPredicate
unfolding wants
first_wanting t [] = none
first_wanting t (p ∷ ps) = if wants t p then some p else first_wanting t ps

-- `storeUpdated`: the first predicate with the id is replaced.
unfoldable pub replace : InterestPredicate → List InterestPredicate → List InterestPredicate
replace u [] = []
replace u (p ∷ ps) = if str_eq p.id u.id then u ∷ ps else p ∷ replace u ps

unfoldable pub store_updated : PredicateSet → InterestPredicate → PredicateSet
unfolding replace
store_updated s u = record s { snapshot = replace u s.snapshot }

abbrev record_match : PredicateSet → Option InterestPredicate → PredicateSet × Option InterestMatch
record_match s none = (s, none)
record_match s (some p) = (
  store_updated s (record p { hits = (p.hits + 1) % 2 ^ 64 }),
  some (record { predicate_id = p.id; scope = p.scope }),
)

unfoldable pub match_trace : PredicateSet → Trace → PredicateSet × Option InterestMatch
unfolding first_wanting
match_trace s t = record_match s (first_wanting t s.snapshot)

abbrev pub keep_if : (InterestPredicate → Bool) → List InterestPredicate → List InterestPredicate
keep_if f [] = []
keep_if f (p ∷ ps) = let rest = keep_if f ps in if f p then p ∷ rest else rest

unfoldable pub list : String → PredicateSet → List InterestPredicate
list tid s = keep_if (λ p. str_eq p.tenant tid) s.snapshot

unfoldable pub tenant_count : String → List InterestPredicate → ℕ
tenant_count tid [] = 0
tenant_count tid (p ∷ ps) = let n = tenant_count tid ps in if str_eq p.tenant tid then suc n else n

-- Whether `p` is evicted rather than `q`.
unfoldable pub is_weaker : InterestPredicate → InterestPredicate → Bool
is_weaker p q = ltb p.hits q.hits || (p.hits == q.hits && ltb p.expires_at q.expires_at)

-- The choice of `evictIdx`: the predicates are counted on from `i`, and `best` is the choice so far.
abbrev pub better :
    ℕ → InterestPredicate → Option (ℕ × InterestPredicate) → Option (ℕ × InterestPredicate)
better i p none = some (i, p)
better i p (some best) = if is_weaker p best.1 then some (i, p) else some best

unfoldable pub evict_idx :
    String
    → ℕ
    → Option (ℕ × InterestPredicate)
    → List InterestPredicate
    → Option (ℕ × InterestPredicate)
unfolding is_weaker
evict_idx tid i best [] = best
evict_idx tid i best (p ∷ ps) =
    evict_idx tid (suc i) (if str_eq p.tenant tid then better i p best else best) ps

unfoldable pub remove_at : ℕ → List InterestPredicate → List InterestPredicate
remove_at i [] = []
remove_at zero (p ∷ ps) = ps
remove_at (suc i) (p ∷ ps) = p ∷ remove_at i ps

abbrev pub evict : PredicateSet → Option (ℕ × InterestPredicate) → PredicateSet
evict s none = s
evict s (some c) = record s {
  snapshot = remove_at c.0 s.snapshot;
  evicted_total = (s.evicted_total + 1) % 2 ^ 64;
}

unfoldable pub next_id : ℕ → String
unfolding decimal
next_id n = concat "pred-" (decimal 20 n)

-- `Add` gives an id to a predicate that has none.
unfoldable pub name : PredicateSet → InterestPredicate → PredicateSet × InterestPredicate
unfolding next_id
name s p =
    if str_eq p.id ""
    then (let n = (s.seq + 1) % 2 ^ 64 in (record s { seq = n }, record p { id = next_id n }))
    else (s, p)

unfoldable pub make_room : PredicateSet → String → PredicateSet
unfolding evict_idx remove_at tenant_count
make_room s tid =
    if leb s.max_preds (tenant_count tid s.snapshot)
    then evict s (evict_idx tid 0 none s.snapshot)
    else s

unfoldable pub add : PredicateSet → InterestPredicate → PredicateSet × String
unfolding name make_room
add s p =
    let (s', p') = name s p in
    let r = make_room s' p'.tenant in (record r { snapshot = r.snapshot ++ p' ∷ [] }, p'.id)

unfoldable pub remove : PredicateSet → String → PredicateSet
remove s id = record s { snapshot = keep_if (λ p. not (str_eq p.id id)) s.snapshot }

-- An `expires_at` of 0 is the zero time.
unfoldable pub is_expired : Time → InterestPredicate → Bool
is_expired now p = not (p.expires_at == 0) && leb p.expires_at now

unfoldable pub expired_count : Time → List InterestPredicate → ℕ
expired_count now [] = 0
expired_count now (p ∷ ps) = let n = expired_count now ps in if is_expired now p then suc n else n

unfoldable pub expire_due : PredicateSet → Time → PredicateSet × ℕ
unfolding is_expired expired_count
expire_due s now = (
  record s { snapshot = keep_if (λ p. not (is_expired now p)) s.snapshot },
  expired_count now s.snapshot,
)

-- The levels of `Narrow`.
abbrev pub narrow_duration : InterestPredicate → InterestPredicate
narrow_duration p = record p {
  min_duration = if p.min_duration == 0 then 250 * 10 ^ 6 else p.min_duration;
  narrow_level = 1;
}

abbrev pub narrow_errors : InterestPredicate → InterestPredicate
narrow_errors p = record p { errors_only = true; narrow_level = 2 }

abbrev first_only : List String → List String
first_only [] = []
first_only (x ∷ xs) = x ∷ []

abbrev pub narrow_services : InterestPredicate → InterestPredicate
narrow_services p = record p { services = first_only p.services; narrow_level = 3 }

abbrev pub map_all :
    (InterestPredicate → InterestPredicate) → List InterestPredicate → List InterestPredicate
map_all f [] = []
map_all f (p ∷ ps) = f p ∷ map_all f ps

abbrev fewer :
    ℕ → InterestPredicate → Option (ℕ × InterestPredicate) → Option (ℕ × InterestPredicate)
fewer i p none = some (i, p)
fewer i p (some best) = if ltb p.hits best.1.hits then some (i, p) else some best

unfoldable pub lowest_idx :
    ℕ → Option (ℕ × InterestPredicate) → List InterestPredicate → Option (ℕ × InterestPredicate)
lowest_idx i best [] = best
lowest_idx i best (p ∷ ps) =
    lowest_idx (suc i) (if is_recurrence p.scope then fewer i p best else best) ps

abbrev pub drop_lowest : PredicateSet → Option (ℕ × InterestPredicate) → PredicateSet × ℕ
drop_lowest s none = (s, 0)
drop_lowest s (some c) = (record s { snapshot = remove_at c.0 s.snapshot }, 1)

unfoldable pub narrow : PredicateSet → ℕ → PredicateSet × ℕ
unfolding lowest_idx remove_at
narrow s level =
    if level == 1
    then (record s { snapshot = map_all narrow_duration s.snapshot }, length s.snapshot)
    else if level == 2
    then (record s { snapshot = map_all narrow_errors s.snapshot }, length s.snapshot)
    else if level == 3
    then (record s { snapshot = map_all narrow_services s.snapshot }, length s.snapshot)
    else if level == 4
    then drop_lowest s (lowest_idx 0 none s.snapshot)
    else (s, 0)

-- `Impl`'s calls: the tenant is written into a predicate that is set, and is not read where one is
-- removed.
unfoldable pub set_interest_predicate :
    PredicateSet → String → InterestPredicate → PredicateSet × String
unfolding add
set_interest_predicate s tid p = add s (record p { tenant = tid })

unfoldable pub remove_interest_predicate : PredicateSet → String → String → PredicateSet
unfolding remove
remove_interest_predicate s tid id = remove s id
