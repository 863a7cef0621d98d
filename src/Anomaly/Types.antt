-- ===== src/Anomaly/Types.antt =====
-- internal/model/anomaly.go: events and incidents. Times are in nanoseconds after Go's zero time.
use tracing_bot.Prelude.{ℕ, String, Bool, List}
use tracing_bot.Prelude.Float.{Float}

abbrev pub Time : Type 0
Time = ℕ

pub data Severity : Type 0 where
  severity_unknown severity_info severity_low severity_medium severity_high severity_critical :
      Severity

pub data IncidentStatus : Type 0 where
  candidate investigating reported paging resolved suppressed expired : IncidentStatus

-- The fields of `AnomalyEvent` that the grouper reads.
pub record AnomalyEvent : Type 0 where
  pub id : String
  pub kind : ℕ
  pub service : String
  pub operation : String
  pub score : Float
  pub error_sig_id : String
  pub exemplar_trace_ids : List ℕ
  pub deploy_marker_ids : List String
  pub provisional : Bool
  pub created_at : Time

-- `Incident`, without the title and the investigation, which the grouper leaves empty.
pub record Incident : Type 0 where
  pub id : String
  pub tenant : String
  pub status : IncidentStatus
  pub severity : Severity
  pub score : Float
  pub fingerprint : String
  pub event_ids : List String
  pub services : List String
  pub epicenter_service : String
  pub blast_radius : List String
  pub exemplar_trace_ids : List ℕ
  pub deploy_marker_ids : List String
  pub suppressed_by : String
  pub provisional : Bool
  pub first_seen : Time
  pub last_seen : Time
  pub created_at : Time
  pub updated_at : Time
