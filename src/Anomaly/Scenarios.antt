-- ===== src/Anomaly/Scenarios.antt =====
-- A grouper with room for one open incident, and the theorems at it.
use tracing_bot.Prelude.{ℕ, String, false, none, List, [], ◌∷◌, ◌≡◌, refl, arith, map}
use tracing_bot.Prelude.Assoc.{lookup, put, count_if}
use tracing_bot.Prelude.Float.{lt_float}
use tracing_bot.Anomaly.Types.{candidate, expired, AnomalyEvent}
use tracing_bot.Anomaly.Grouper.{
  GroupingConfig, Deps, new_grouper, index_in, is_open, compute_fingerprint, f069, neighbors_of,
  register_service,
}
use tracing_bot.Anomaly.Incidents.{
  gather, rate, attach_event, same_fingerprint, enforce_max_open_incidents, open_incident, add,
}
use tracing_bot.Anomaly.Incidents.Calls.{GrouperCall, add_call, regroup_all}
use tracing_bot.Anomaly.Incidents.Attach.{incidents_of}
use tracing_bot.Anomaly.Incidents.Bound.{IsBounded, regroup_all-IsBounded}
use tracing_bot.Anomaly.Incidents.Added.{IsAdded, add-IsAdded}

abbrev small_config : GroupingConfig
small_config = record {
  window = 300_000_000_000;
  topology_hops = 2;
  max_events_per_incident = 200;
  max_open_incidents = 1;
  dedupe_ttl = 1_800_000_000_000;
  neighbor_cache_ttl = 60_000_000_000;
}

-- No topology; the hash is the text itself, and a score is not scaled.
abbrev no_topology : Deps
no_topology = record { topo = none; wall = 7; hash = λ s. s; scaled = λ score n. score }

abbrev event_at : String → String → ℕ → AnomalyEvent
event_at id service at = record {
  id = id;
  kind = 2;
  service = service;
  operation = "";
  score = f069;
  error_sig_id = "";
  exemplar_trace_ids = [];
  deploy_marker_ids = [];
  provisional = false;
  created_at = at;
}

abbrev two_events : List GrouperCall
two_events =
    add_call no_topology "acme" (event_at "e1" "web" 10)
    ∷ add_call no_topology "acme" (event_at "e2" "cart" 20)
    ∷ []

-- Two services far apart open two incidents, and the older of equal scores is closed.
two_events-statuses :
    map (λ x. x.1.status) (incidents_of "acme" (regroup_all two_events (new_grouper small_config)))
    ≡ expired ∷ candidate ∷ []
unfolding regroup_all index_in lookup add same_fingerprint open_incident enforce_max_open_incidents
    attach_event neighbors_of register_service count_if put is_open rate gather compute_fingerprint
    lt_float
two_events-statuses = refl

regroup_all-IsBounded_example : IsBounded 1 (regroup_all two_events (new_grouper small_config))
regroup_all-IsBounded_example = regroup_all-IsBounded small_config two_events

one_event-room :
    (regroup_all two_events (new_grouper small_config)).cfg.max_events_per_incident ≡ 200
unfolding regroup_all index_in lookup add same_fingerprint open_incident enforce_max_open_incidents
    attach_event neighbors_of register_service count_if put is_open rate gather compute_fingerprint
    lt_float
one_event-room = refl

add-IsAdded_example :
    let g = regroup_all two_events (new_grouper small_config) in
    let e = event_at "e3" "pay" 30 in
    let out = add no_topology "acme" e g in IsAdded "acme" e g out.0.0 out.1
add-IsAdded_example =
    add-IsAdded 1 no_topology "acme" (event_at "e3" "pay" 30)
      (regroup_all two_events (new_grouper small_config)) regroup_all-IsBounded_example
      (omega (arith, one_event-room))
