-- ===== src/Rca/Tools.antt =====
-- internal/rca/tools.go, the registry of the five tools over their backends, and `validateToolArgs` of
-- engine.go. A backend that is not wired is `none`.
pub mod Dispatch
use tracing_bot.Prelude.{
  ℕ, ◌+◌, String, Bool, true, false, not, Option, none, some, List, [], ◌∷◌, ◌==◌, str_eq,
  if◌then◌else◌,
}
use tracing_bot.Rca.Types.{
  Time, Phase, contextualize, hypothesize, test, validate, report, InvestigationStatus, running,
  concluded, inconclusive, budget_exhausted, failed, aborted, TerminationReason, term_concluded,
  term_steps, term_tool_calls, term_tokens, term_cached_tokens, term_cost, term_wall_clock,
  term_aborted, term_failed, ReasonerKind, llm, rules, ReplayMode, original, recorded, live_diff,
  ToolName, trace_query, log_query, metric_query, topology_query, memory_query, other_tool,
  StepVerdict, verdict_ok, verdict_invalid_args, verdict_unavailable, verdict_refused,
  verdict_schema_error, Budget, Spend, Charge, no_spend, Hypothesis, ReasonerSwap, Step,
  Investigation, ToolResult, Conclusion, Correction, Incident, AttrEqual, TraceQueryArgs,
  LogQueryArgs, RedQuery, MetricQueryArgs, TopologyQueryArgs, MemoryQueryArgs, ToolArgs, Proposal,
  ReasonerInput, Error, no_more_rules, evidence_corrupt, llm_transport, llm_refused,
  llm_schema_invalid, llm_canary_violation, llm_budget_exceeded, tool_unavailable,
  unknown_investigation, tenant_mismatch, mismatched_args, unknown_tool, bad_payloads,
  journal_create, other_error, Result, ok, err, confidence_threshold, swapped_cap,
  is_fallback_trigger,
}

-- What a Go call returns beside its error.
abbrev pub Reply : Type 0
Reply = ToolResult × Option Error

abbrev pub no_result : ToolResult
no_result = record {
  rows = [];
  clamped = false;
  truncated = false;
  from_cache = false;
  tool = other_tool "";
  observed_at = 0;
}

abbrev pub Backend : Type 0 → Type 0
Backend A = Option (String → A → Reply)

-- `Registry`: the tools by their backends.
pub record Registry : Type 0 where
  pub trace : Backend TraceQueryArgs
  pub log : Backend LogQueryArgs
  pub metric : Backend MetricQueryArgs
  pub topology : Backend TopologyQueryArgs
  pub memory : Backend MemoryQueryArgs

-- A backend's reply under the name of its tool.
unfoldable pub ask : {A : Type 0} → ToolName → Backend A → String → A → Reply
ask name none tid a = (no_result, some tool_unavailable)
ask name (some query) tid a = let r = query tid a in (record r.0 { tool = name }, r.1)

-- `Invoke`, once the tool's name is known to be its own.
invoke : {A : Type 0} → ToolName → Backend A → String → Option A → Reply
unfolding ask
invoke name backend tid none = (no_result, some mismatched_args)
invoke name backend tid (some a) = ask name backend tid a

-- `Get` and `Invoke` of the tool that it finds.
invoke_tool : Registry → String → ToolArgs → ToolName → Reply
unfolding invoke
invoke_tool r tid a trace_query = invoke trace_query r.trace tid a.trace
invoke_tool r tid a log_query = invoke log_query r.log tid a.log
invoke_tool r tid a metric_query = invoke metric_query r.metric tid a.metric
invoke_tool r tid a topology_query = invoke topology_query r.topology tid a.topology
invoke_tool r tid a memory_query = invoke memory_query r.memory tid a.memory
invoke_tool r tid a (other_tool n) = (no_result, some unknown_tool)

abbrev is_known : ToolName → Bool
is_known (other_tool n) = false
is_known _ = true

-- `Registry.Dispatch`.
unfoldable pub dispatch : Registry → String → ToolArgs → Reply
unfolding invoke_tool
dispatch r tid a =
    if not (is_known a.tool)
    then (no_result, some unknown_tool)
    else if not (str_eq a.tenant_id tid)
    then (no_result, some tenant_mismatch)
    else invoke_tool r tid a a.tool

abbrev pub is_some {ℓ} : {A : Type ℓ} → Option A → Bool
is_some none = false
is_some (some a) = true

abbrev one_if : Bool → ℕ
one_if true = 1
one_if false = 0

-- How many payloads are set.
payloads_set : ToolArgs → ℕ
payloads_set a =
    one_if (is_some a.trace)
    + one_if (is_some a.log)
    + one_if (is_some a.metric)
    + one_if (is_some a.topology)
    + one_if (is_some a.memory)

-- Whether the payload of the tool's name is set.
has_own_payload : ToolArgs → ToolName → Bool
has_own_payload a trace_query = is_some a.trace
has_own_payload a log_query = is_some a.log
has_own_payload a metric_query = is_some a.metric
has_own_payload a topology_query = is_some a.topology
has_own_payload a memory_query = is_some a.memory
has_own_payload a (other_tool n) = false

-- `validateToolArgs`: `none` is its nil.
unfoldable pub validate_tool_args : ToolArgs → Option Error
unfolding payloads_set has_own_payload
validate_tool_args a =
    if not (payloads_set a == 1)
    then some bad_payloads
    else if has_own_payload a a.tool
    then none
    else some mismatched_args
