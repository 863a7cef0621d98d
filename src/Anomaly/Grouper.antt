-- ===== src/Anomaly/Grouper.antt =====
-- internal/anomaly/grouper.go: the state of the grouper and how it attaches an event to an incident.
use tracing_bot.Prelude.{
  ℕ, ◌+◌, String, Bool, true, false, Option, none, some, List, [], ◌∷◌, ◌++◌, ltb, leb, str_eq,
  if◌then◌else◌, any,
}
use Prim.Native.Nat.{lt, eq, gt}
use Prim.Native.String.{◌++◌ as join, compare}
use tracing_bot.Prelude.Assoc.{Assoc, lookup, put}
use tracing_bot.Prelude.Float.{Float, lt_float, le_float}
use tracing_bot.Prelude.Decimal.{decimal}
use tracing_bot.Anomaly.Types.{
  Time, Severity, severity_unknown, severity_low, severity_medium, severity_high, severity_critical,
  IncidentStatus, candidate, investigating, reported, paging, resolved, suppressed, expired,
  AnomalyEvent, Incident,
}

pub record CacheEntry : Type 0 where
  pub neighbors : List String
  pub expires_at : Time

-- The four maps of a tenant, which `ensureTenant` makes together.
pub record TenantIndex : Type 0 where
  pub incidents : Assoc Incident
  pub by_service : Assoc (List String)
  pub by_fingerprint : Assoc String
  pub closed_at : Assoc Time

-- `GroupingConfig`, as far as the grouper reads it.
pub record GroupingConfig : Type 0 where
  pub window : ℕ
  pub topology_hops : ℕ
  pub max_events_per_incident : ℕ
  pub max_open_incidents : ℕ
  pub dedupe_ttl : ℕ
  pub neighbor_cache_ttl : ℕ

-- `memGrouper`.
pub record Grouper : Type 0 where
  pub cfg : GroupingConfig
  pub tenants : Assoc TenantIndex
  pub epicenter_score : Assoc (Assoc Float)
  pub neighbor_cache : Assoc CacheEntry
  pub open_incidents : ℕ
  pub last_tick_at : Time
  pub seq : ℕ

-- What a call is answered from outside: the topology, if there is one, with `none` for its error; the wall
-- clock; the hash in hexadecimal; and the product of a score with `1 + 0.05*float64(distinct-1)`.
pub record Deps : Type 0 where
  pub topo : Option (String → String → ℕ → Option (List String))
  pub wall : Time
  pub hash : String → String
  pub scaled : Float → ℕ → Float

-- `NewGrouper`.
abbrev pub new_grouper : GroupingConfig → Grouper
new_grouper cfg = record {
  cfg = cfg;
  tenants = [];
  epicenter_score = [];
  neighbor_cache = [];
  open_incidents = 0;
  last_tick_at = 0;
  seq = 0;
}

-- The maps of a tenant: a missing one reads as empty ones, and `ensureTenant` makes them.
unfoldable pub index_in : String → Assoc TenantIndex → TenantIndex
index_in tid m = elim (lookup tid m) [
  | some t ↦ t
  | none ↦ record { incidents = []; by_service = []; by_fingerprint = []; closed_at = [] }
]

abbrev pub index_of : String → Grouper → TenantIndex
index_of tid g = index_in tid g.tenants

abbrev pub with_index : String → TenantIndex → Grouper → Grouper
with_index tid t g = record g { tenants = put tid t g.tenants }

unfoldable pub is_open : IncidentStatus → Bool
is_open candidate = true
is_open investigating = true
is_open reported = true
is_open paging = true
is_open resolved = false
is_open suppressed = false
is_open expired = false

abbrev pub contains : List String → String → Bool
contains s v = any (λ x. str_eq x v) s

abbrev pub str_lt : String → String → Bool
str_lt a b = elim (compare a b) [ lt ↦ true | eq ↦ false | gt ↦ false ]

insert_string : String → List String → List String
insert_string s [] = s ∷ []
insert_string s (t ∷ ts) = if str_lt t s then t ∷ insert_string s ts else s ∷ t ∷ ts

-- `sort.Strings`.
unfoldable pub sort_strings : List String → List String
unfolding insert_string
sort_strings [] = []
sort_strings (s ∷ ss) = insert_string s (sort_strings ss)

-- `strings.Join` with the byte 1.
join_tokens : List String → String
join_tokens [] = ""
join_tokens (s ∷ []) = s
join_tokens (s ∷ t ∷ ts) = join s (join "\u{1}" (join_tokens (t ∷ ts)))

-- `computeFingerprint`.
unfoldable pub compute_fingerprint : Deps → String → AnomalyEvent → String
unfolding sort_strings join_tokens decimal
compute_fingerprint d tid e =
    let named = if str_eq e.operation "" then [] else join "op:" e.operation ∷ [] in
    let signed = if str_eq e.error_sig_id "" then [] else join "errsig:" e.error_sig_id ∷ [] in
    let tokens = join "svc:" e.service ∷ join "kind:" (decimal 3 e.kind) ∷ named ++ signed in
    join "fp1:" (d.hash (join tid (join "\0" (join_tokens (sort_strings tokens)))))

-- The float64 constants of the source, as bits.
abbrev pub zero_float : Float
zero_float = 0

abbrev pub one_float : Float
one_float = 4_607_182_418_800_017_408

abbrev pub minus_one_float : Float
minus_one_float = 13_830_554_455_654_793_216

abbrev pub f055 : Float
f055 = 4_603_129_179_135_383_962

abbrev pub f069 : Float
f069 = 4_604_390_187_031_047_700

abbrev pub f084 : Float
f084 = 4_605_741_266_919_258_849

unfoldable pub severity_for : Float → ℕ → Severity
severity_for score distinct =
    if lt_float score f055
    then severity_unknown
    else if le_float score f069
    then (if leb 2 distinct then severity_medium else severity_low)
    else if le_float score f084
    then severity_high
    else severity_critical

abbrev pub clamp01 : Float → Float
clamp01 v =
    if lt_float v zero_float then zero_float else if lt_float one_float v then one_float else v

-- `neighborsOf`.
unfoldable pub neighbors_of : Deps → String → String → Grouper → List String × Grouper
neighbors_of d tid service g =
    let key = join tid (join "|" service) in
    let ask : List String × Grouper = elim d.topo [
      | none ↦ ([], g)
      | some topo ↦ elim (topo tid service g.cfg.topology_hops) [
        | none ↦ ([], g)
        | some ns ↦ (
          ns,
          record g {
            neighbor_cache =
                put key (record { neighbors = ns; expires_at = d.wall + g.cfg.neighbor_cache_ttl })
                  g.neighbor_cache;
          },
        )
      ]
    ] in
    elim (lookup key g.neighbor_cache) [
      | none ↦ ask
      | some c ↦ if ltb d.wall c.expires_at then (c.neighbors, g) else ask
    ]

-- `addToByService`.
unfoldable pub add_to_by_service : String → String → Assoc (List String) → Assoc (List String)
add_to_by_service service id m =
    let ids : List String = elim (lookup service m) [ none ↦ [] | some l ↦ l ] in
    if contains ids id then m else put service (ids ++ id ∷ []) m

index_under : List String → String → Assoc (List String) → Assoc (List String)
unfolding add_to_by_service
index_under [] id m = m
index_under (n ∷ ns) id m = index_under ns id (add_to_by_service n id m)

-- `registerServiceForIncident`.
unfoldable pub register_service : Deps → String → String → String → Grouper → Grouper
unfolding index_under
register_service d tid id service g =
    let (ns, g') = neighbors_of d tid service g in
    let t = index_of tid g' in
    with_index tid (record t { by_service = index_under (service ∷ ns) id t.by_service }) g'
