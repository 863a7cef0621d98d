-- ===== src/Rca/Types.antt =====
-- internal/model/rca.go with the argument types of internal/rca/rca.go and the errors of
-- internal/rca/errors.go: what the investigation engine reads and writes. Times are in nanoseconds after
-- Go's zero time, and the counters of a spend are natural numbers.
use tracing_bot.Prelude.{ℕ, String, Bool, true, false, Option, List}
use tracing_bot.Prelude.Bytes.{Bytes}
use tracing_bot.Prelude.Int.{ℤ}
use tracing_bot.Prelude.Float.{Float}

abbrev pub Time : Type 0
Time = ℕ

pub data Phase : Type 0 where
  contextualize hypothesize test validate report : Phase

pub data InvestigationStatus : Type 0 where
  running concluded inconclusive budget_exhausted failed aborted : InvestigationStatus

pub data TerminationReason : Type 0 where
  term_concluded term_steps term_tool_calls term_tokens term_cached_tokens : TerminationReason
  term_cost term_wall_clock term_aborted term_failed : TerminationReason

pub data ReasonerKind : Type 0 where
  llm rules : ReasonerKind

pub data ReplayMode : Type 0 where
  original recorded live_diff : ReplayMode

-- The five tools, and any other name; the empty name is the tool of a step that calls none.
pub data ToolName : Type 0 where
  trace_query log_query metric_query topology_query memory_query : ToolName
  other_tool : String → ToolName

pub data StepVerdict : Type 0 where
  verdict_ok verdict_invalid_args verdict_unavailable verdict_refused verdict_schema_error :
      StepVerdict

pub record Budget : Type 0 where
  pub wall_clock : ℕ
  pub max_step_wall_clock : ℕ
  pub max_steps : ℕ
  pub max_tool_calls : ℕ
  pub max_tokens_in : ℕ
  pub max_cached_tokens_in : ℕ
  pub max_tokens_out : ℕ
  pub max_cost_micro_usd : ℕ
  pub max_rows_per_tool_call : ℕ
  pub max_evidence_bytes : ℕ

pub record Spend : Type 0 where
  pub tokens_in : ℕ
  pub cached_tokens_in : ℕ
  pub tokens_out : ℕ
  pub cost_micro_usd : ℕ
  pub tool_calls : ℕ
  pub steps : ℕ

pub record Charge : Type 0 where
  pub tokens_in : ℕ
  pub cached_tokens_in : ℕ
  pub tokens_out : ℕ
  pub cost_micro_usd : ℕ

abbrev pub no_spend : Spend
no_spend = record {
  tokens_in = 0;
  cached_tokens_in = 0;
  tokens_out = 0;
  cost_micro_usd = 0;
  tool_calls = 0;
  steps = 0;
}

pub record Hypothesis : Type 0 where
  pub id : String
  pub statement : String
  pub category : ℕ
  pub component : String
  pub prior_score : Float
  pub post_score : Float
  pub status : ℕ
  pub source : ℕ

pub record ReasonerSwap : Type 0 where
  pub at_step : ℕ
  pub from : ReasonerKind
  pub to : ReasonerKind
  pub reason : String
  pub at : Time

pub record Step : Type 0 where
  pub id : String
  pub investigation_id : String
  pub tenant : String
  pub seq : ℕ
  pub phase : Phase
  pub tool : ToolName
  pub tool_args_json : Bytes
  pub tool_args_hash : String
  pub tool_result_hash : String
  pub tool_result_ref : String
  pub tool_result_bytes : ℕ
  pub truncated : Bool
  pub clamped : Bool
  pub from_cache : Bool
  pub reasoner_output_ref : String
  pub reasoner_output_hash : String
  pub verdict : StepVerdict
  pub started_at : Time
  pub ended_at : Time
  pub latency_millis : ℤ

pub record Investigation : Type 0 where
  pub id : String
  pub tenant : String
  pub incident_id : String
  pub status : InvestigationStatus
  pub phase : Phase
  pub hypotheses : List Hypothesis
  pub steps : List Step
  pub root_cause : String
  pub confidence : Float
  pub reasoner_kind : ReasonerKind
  pub reasoner_swaps : List ReasonerSwap
  pub budget : Budget
  pub spend : Spend
  pub termination_reason : Option TerminationReason
  pub parent_id : String
  pub replay_of : String
  pub replay_mode : ReplayMode
  pub report_markdown : String
  pub error : String
  pub started_at : Time
  pub ended_at : Time
  pub version : ℕ

pub record ToolResult : Type 0 where
  pub rows : Bytes
  pub clamped : Bool
  pub truncated : Bool
  pub from_cache : Bool
  pub tool : ToolName
  pub observed_at : Time

pub record Conclusion : Type 0 where
  pub root_cause : String
  pub confidence : Float
  pub hypotheses : List Hypothesis

pub record Correction : Type 0 where
  pub id : String
  pub target_id : String
  pub reason : String
  pub corrected_by : String
  pub corrected_at : Time
  pub new_value : String

-- What the engine reads of a `model.Incident`.
pub record Incident : Type 0 where
  pub id : String
  pub epicenter_service : String
  pub blast_radius : List String

pub record AttrEqual : Type 0 where
  pub key : String
  pub value : String

pub record TraceQueryArgs : Type 0 where
  pub service : String
  pub operation : String
  pub min_duration_millis : ℕ
  pub status : String
  pub attr_equals : List AttrEqual
  pub error_sig_id : String
  pub path_signature : ℕ
  pub start : Time
  pub end : Time
  pub limit : ℕ
  pub project : List String

pub record LogQueryArgs : Type 0 where
  pub trace_id : ℕ
  pub service : String
  pub start : Time
  pub end : Time
  pub contains : String
  pub limit : ℕ

pub record RedQuery : Type 0 where
  pub service : String
  pub operation : String

pub record MetricQueryArgs : Type 0 where
  pub template_id : String
  pub params : List (String × String)
  pub red : Option RedQuery
  pub start : Time
  pub end : Time
  pub step_seconds : ℕ

pub record TopologyQueryArgs : Type 0 where
  pub service : String
  pub hops : ℕ
  pub direction : ℕ
  pub start : Time
  pub end : Time
  pub limit : ℕ

pub record MemoryQueryArgs : Type 0 where
  pub fingerprint : String
  pub text : String
  pub top_k : ℕ

pub record ToolArgs : Type 0 where
  pub tenant_id : String
  pub tool : ToolName
  pub trace : Option TraceQueryArgs
  pub log : Option LogQueryArgs
  pub metric : Option MetricQueryArgs
  pub topology : Option TopologyQueryArgs
  pub memory : Option MemoryQueryArgs

pub record Proposal : Type 0 where
  pub phase : Phase
  pub hypotheses : List Hypothesis
  pub call : Option ToolArgs
  pub done : Bool
  pub rationale : String
  pub usage : Charge

-- `rca.State`.
pub record ReasonerInput : Type 0 where
  pub investigation : Investigation
  pub incident : Incident
  pub last_args : Option ToolArgs
  pub last_result : Option ToolResult
  pub last_hypothesis_id : String

-- The sentinels of errors.go and tools.go, and the errors that have none.
pub data Error : Type 0 where
  no_more_rules evidence_corrupt llm_transport llm_refused llm_schema_invalid : Error
  llm_canary_violation llm_budget_exceeded tool_unavailable : Error
  unknown_investigation tenant_mismatch mismatched_args unknown_tool bad_payloads journal_create :
      Error
  -- The panic of a call on a nil store.
  nil_store : Error
  other_error : String → Error

pub data Result {ℓ} (A : Type ℓ) : Type ℓ where
  ok : A → Result A
  err : Error → Result A

-- `confidenceThreshold`, 0.75, and the cap 0.74 of a swapped investigation.
abbrev pub confidence_threshold : Float
confidence_threshold = 0x3fe8_0000_0000_0000

abbrev pub swapped_cap : Float
swapped_cap = 0x3fe7_ae14_7ae1_47ae

unfoldable pub is_fallback_trigger : Error → Bool
is_fallback_trigger llm_transport = true
is_fallback_trigger llm_refused = true
is_fallback_trigger llm_schema_invalid = true
is_fallback_trigger llm_canary_violation = true
is_fallback_trigger llm_budget_exceeded = true
is_fallback_trigger _ = false
