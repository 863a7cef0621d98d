-- ===== src/Anomaly/Incidents.antt =====
-- internal/anomaly/grouper.go: the operations of the grouper. The mutex makes each one step; an incident
-- that is reached by a pointer is written back to the map.
pub mod Open
pub mod Attach
pub mod Calls
pub mod Bound
pub mod Added
use tracing_bot.Prelude.{
  ℕ, zero, suc, ◌+◌, ◌-◌, String, Bool, true, false, ◌&&◌, ◌||◌, not, Option, none, some, List, [],
  ◌∷◌, ◌++◌, ltb, leb, ◌==◌, str_eq, if◌then◌else◌, length, any,
}
use Prim.Native.String.{◌++◌ as join, compare}
use tracing_bot.Prelude.Assoc.{Assoc, lookup, put, count_if}
use tracing_bot.Prelude.Float.{Float, lt_float, le_float}
use tracing_bot.Prelude.Decimal.{decimal}
use tracing_bot.Anomaly.Types.{
  Time, Severity, severity_unknown, severity_info, severity_low, severity_medium, severity_high,
  severity_critical, IncidentStatus, candidate, investigating, reported, paging, resolved,
  suppressed, expired, AnomalyEvent, Incident,
}
use tracing_bot.Anomaly.Grouper.{
  CacheEntry, TenantIndex, GroupingConfig, Grouper, Deps, new_grouper, index_of, with_index,
  is_open, contains, str_lt, sort_strings, compute_fingerprint, zero_float, one_float,
  minus_one_float, f055, f069, f084, severity_for, clamp01, neighbors_of, add_to_by_service,
  register_service,
}

unfoldable pub drop_first : {A : Type 0} → ℕ → List A → List A
drop_first zero xs = xs
drop_first (suc n) [] = []
drop_first (suc n) (x ∷ xs) = drop_first n xs

-- The last `bound` ids.
unfoldable pub cap_events : ℕ → List String → List String
unfolding drop_first
cap_events bound ids = drop_first (length ids - bound) ids

add_missing : List String → List String → List String
add_missing [] have = have
add_missing (x ∷ xs) have = add_missing xs (if contains have x then have else have ++ x ∷ [])

unfoldable pub add_exemplars : List ℕ → List ℕ → List ℕ
add_exemplars [] have = have
add_exemplars (x ∷ xs) have =
    add_exemplars xs (if ltb (length have) 4 then have ++ x ∷ [] else have)

-- The scores of an incident's services.
abbrev scores_of : String → Grouper → Assoc Float
scores_of id g = elim (lookup id g.epicenter_score) [ none ↦ [] | some m ↦ m ]

best_score : Float → Assoc Float → Float
best_score m [] = m
best_score m ((s, sc) ∷ scores) = best_score (if lt_float m sc then sc else m) scores

-- The scores with that of the event, if it is higher.
note_score : AnomalyEvent → Assoc Float → Assoc Float
note_score e scores =
    let old : Float = elim (lookup e.service scores) [ none ↦ zero_float | some s ↦ s ] in
    if lt_float old e.score then put e.service e.score scores else scores

-- The loop for the epicenter: the best service so far and its score.
pick_epicenter : String → Float → Assoc Float → String
pick_epicenter best score [] = best
pick_epicenter best score ((svc, sc) ∷ scores) =
    let tie = le_float sc score && le_float score sc && (str_eq best "" || str_lt svc best) in
    if lt_float score sc || tie
    then pick_epicenter svc sc scores
    else pick_epicenter best score scores

keep_in : List String → List String → List String
keep_in near [] = []
keep_in near (s ∷ ss) = let rest = keep_in near ss in if contains near s then s ∷ rest else rest

-- The part of `attachEvent` before the scores.
unfoldable pub gather : AnomalyEvent → ℕ → Incident → Incident
unfolding add_missing
gather e bound inc = record inc {
  event_ids = cap_events bound (inc.event_ids ++ e.id ∷ []);
  services =
      if contains inc.services e.service then inc.services else inc.services ++ e.service ∷ [];
  provisional = e.provisional || inc.provisional;
  deploy_marker_ids = add_missing e.deploy_marker_ids inc.deploy_marker_ids;
  exemplar_trace_ids = add_exemplars e.exemplar_trace_ids inc.exemplar_trace_ids;
}

-- The score and the severity.
unfoldable pub rate : Deps → Assoc Float → Incident → Incident
unfolding best_score
rate d scores inc =
    let distinct = length inc.services in
    let raw = clamp01 (d.scaled (best_score zero_float scores) distinct) in
    let score = if inc.provisional && lt_float f069 raw then f069 else raw in
    record inc { score = score; severity = severity_for score distinct }

-- `attachEvent`.
unfoldable pub attach_event : Deps → String → AnomalyEvent → Incident → Grouper → Incident × Grouper
unfolding note_score pick_epicenter keep_in
attach_event d tid e inc g =
    let a =
      if contains inc.services e.service then g else register_service d tid inc.id e.service g in
    let scores = note_score e (scores_of inc.id a) in
    let rated = rate d scores (gather e g.cfg.max_events_per_incident inc) in
    let epicenter = pick_epicenter inc.epicenter_service minus_one_float scores in
    let (near, b) =
      neighbors_of d tid epicenter
        (record a { epicenter_score = put inc.id scores a.epicenter_score }) in
    (
      record rated {
        epicenter_service = epicenter;
        blast_radius = sort_strings (keep_in (epicenter ∷ near) rated.services);
        last_seen = if ltb inc.last_seen e.created_at then e.created_at else inc.last_seen;
        updated_at = e.created_at;
      },
      b,
    )

-- Writing an incident back under its key.
abbrev pub save : String → String → Incident → Grouper → Grouper
save tid key inc g =
    let t = index_of tid g in with_index tid (record t { incidents = put key inc t.incidents }) g

-- Whether the incident that has the event's fingerprint takes it.
abbrev pub is_eligible : AnomalyEvent → ℕ → TenantIndex → String → Incident → Bool
is_eligible e ttl t id inc =
    is_open inc.status
    || elim (lookup id t.closed_at) [ none ↦ false | some at ↦ leb e.created_at (at + ttl) ]

unfoldable pub same_fingerprint :
    AnomalyEvent → ℕ → String → TenantIndex → Option (String × Incident)
same_fingerprint e ttl fp t = elim (lookup fp t.by_fingerprint) [
  | none ↦ none
  | some id ↦ elim (lookup id t.incidents) [
    | none ↦ none
    | some inc ↦ if is_eligible e ttl t id inc then some (id, inc) else none
  ]
]

-- Whether an incident near the event's service takes it.
abbrev pub is_current : AnomalyEvent → ℕ → Incident → Bool
is_current e window inc =
    is_open inc.status && not (inc.updated_at == 0) && leb e.created_at (inc.updated_at + window)

-- The loop over the incidents near the event's service.
unfoldable pub find_target :
    AnomalyEvent → ℕ → List String → Assoc Incident → Option (String × Incident)
find_target e window [] m = none
find_target e window (id ∷ ids) m =
    let rest = find_target e window ids m in
    elim (lookup id m) [
      | none ↦ rest
      | some inc ↦ if is_current e window inc then some (id, inc) else rest
    ]

-- The body of the loop of `enforceMaxOpenIncidents`: the open incident with the lowest score so far.
abbrev pub lower_of : Option (String × Incident) → String × Incident → Option (String × Incident)
lower_of none (k, inc) = if is_open inc.status then some (k, inc) else none
lower_of (some p) (k, inc) =
    if is_open inc.status && lt_float inc.score p.1.score then some (k, inc) else some p

unfoldable pub lowest_open :
    Option (String × Incident) → Assoc Incident → Option (String × Incident)
lowest_open low [] = low
lowest_open low (x ∷ m) = lowest_open (lower_of low x) m

abbrev pub count_open : Assoc Incident → ℕ
count_open m = count_if (λ inc. is_open inc.status) m

-- `enforceMaxOpenIncidents`.
unfoldable pub enforce_max_open_incidents : Time → String → Grouper → Grouper
unfolding lowest_open
enforce_max_open_incidents wall tid g =
    let t = index_of tid g in
    if ltb g.cfg.max_open_incidents (count_open t.incidents)
    then elim (lowest_open none t.incidents) [
      | none ↦ g
      | some p ↦
          with_index tid
            (record t {
              incidents = put p.0 (record p.1 { status = expired }) t.incidents;
              closed_at = put p.0 wall t.closed_at;
            })
            g
    ]
    else g

abbrev pub fresh_incident : String → AnomalyEvent → ℕ → Incident
fresh_incident tid e n = record {
  id = join "inc-" (decimal 20 n);
  tenant = tid;
  status = candidate;
  severity = severity_unknown;
  score = zero_float;
  fingerprint = "";
  event_ids = [];
  services = [];
  epicenter_service = "";
  blast_radius = [];
  exemplar_trace_ids = [];
  deploy_marker_ids = [];
  suppressed_by = "";
  provisional = false;
  first_seen = e.created_at;
  last_seen = e.created_at;
  created_at = e.created_at;
  updated_at = e.created_at;
}

abbrev pub note_fingerprint : String → String → String → Grouper → Grouper
note_fingerprint tid fp id g =
    let t = index_of tid g in
    with_index tid (record t { by_fingerprint = put fp id t.by_fingerprint }) g

-- `Add` of an event that no incident takes.
unfoldable pub open_incident : Deps → String → AnomalyEvent → String → Grouper → Incident × Grouper
open_incident d tid e fp g =
    let (inc, g') =
      attach_event d tid e (fresh_incident tid e (g.seq + 1)) (record g { seq = g.seq + 1 }) in
    let named = record inc { fingerprint = fp } in
    let out =
      enforce_max_open_incidents d.wall tid
        (note_fingerprint tid fp named.id (save tid named.id named g')) in
    (elim (lookup named.id (index_of tid out).incidents) [ none ↦ named | some i ↦ i ], out)

-- `Add`: the incident, whether it is more than a repetition, and the grouper.
unfoldable pub add : Deps → String → AnomalyEvent → Grouper → (Incident × Bool) × Grouper
unfolding find_target
add d tid e g =
    let t = index_of tid g in
    let fp = compute_fingerprint d tid e in
    let near : List String = elim (lookup e.service t.by_service) [ none ↦ [] | some l ↦ l ] in
    elim (same_fingerprint e g.cfg.dedupe_ttl fp t) [
      | some p ↦
          let (inc, g') = attach_event d tid e p.1 g in
          let out = record inc { suppressed_by = p.0 } in ((out, false), save tid p.0 out g')
      | none ↦ elim (find_target e g.cfg.window near t.incidents) [
        | none ↦ let (inc, g') = open_incident d tid e fp g in ((inc, true), g')
        | some p ↦
            let (inc, g') = attach_event d tid e p.1 g in
            let out = record inc {
              fingerprint = if str_eq inc.fingerprint "" then fp else inc.fingerprint;
            } in
            ((out, true), note_fingerprint tid fp out.id (save tid p.0 out g'))
      ]
    ]

-- `Suppress`: `false` is the error for an unknown incident.
unfoldable pub suppress : Deps → String → String → String → Grouper → Bool × Grouper
suppress d tid id reason g =
    let t = index_of tid g in
    elim (lookup id t.incidents) [
      | none ↦ (false, with_index tid t g)
      | some inc ↦ (
        true,
        with_index tid
            (record t {
              incidents =
                  put id (record inc { status = suppressed; suppressed_by = reason }) t.incidents;
              closed_at = put id d.wall t.closed_at;
            })
            g,
      )
    ]

count_all : Assoc TenantIndex → ℕ
count_all [] = 0
count_all ((tid, t) ∷ m) = count_open t.incidents + count_all m

-- `Tick`.
unfoldable pub tick : Time → Grouper → Grouper
unfolding count_all
tick now g = record g { last_tick_at = now; open_incidents = count_all g.tenants }

open_of : Assoc Incident → List Incident
open_of [] = []
open_of ((k, inc) ∷ m) = let rest = open_of m in if is_open inc.status then inc ∷ rest else rest

insert_incident : Incident → List Incident → List Incident
insert_incident i [] = i ∷ []
insert_incident i (j ∷ js) = if str_lt j.id i.id then j ∷ insert_incident i js else i ∷ j ∷ js

sort_incidents : List Incident → List Incident
unfolding insert_incident
sort_incidents [] = []
sort_incidents (i ∷ is) = insert_incident i (sort_incidents is)

-- `ActiveIncidents`.
unfoldable pub active_incidents : String → Grouper → List Incident
unfolding open_of sort_incidents
active_incidents tid g = sort_incidents (open_of (index_of tid g).incidents)
