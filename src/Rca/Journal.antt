-- ===== src/Rca/Journal.antt =====
-- internal/rca/journal.go: the journal of investigations and the store of evidence bodies, as the
-- interfaces that the engine uses and as their implementations in memory. `Journal` is what the
-- engine calls of the Go interface; a call that reports an error gives `false`.
pub mod Laws
pub mod Memory
use tracing_bot.Prelude.{
  String, Bool, true, false, not, Option, none, some, List, [], ◌∷◌, ◌++◌, str_eq, if◌then◌else◌,
}
use tracing_bot.Prelude.Assoc.{Assoc, lookup, put}
use tracing_bot.Prelude.Bytes.{Bytes}
use Prim.Native.String.{◌++◌ as join}
use tracing_bot.Rca.Types.{
  Time, Phase, contextualize, hypothesize, test, validate, report, InvestigationStatus, running,
  concluded, inconclusive, budget_exhausted, failed, aborted, TerminationReason, term_concluded,
  term_steps, term_tool_calls, term_tokens, term_cached_tokens, term_cost, term_wall_clock,
  term_aborted, term_failed, ReasonerKind, llm, rules, ReplayMode, original, recorded, live_diff,
  ToolName, trace_query, log_query, metric_query, topology_query, memory_query, other_tool,
  StepVerdict, verdict_ok, verdict_invalid_args, verdict_unavailable, verdict_refused,
  verdict_schema_error, Budget, Spend, Charge, no_spend, Hypothesis, ReasonerSwap, Step,
  Investigation, ToolResult, Conclusion, Correction, Incident, AttrEqual, TraceQueryArgs,
  LogQueryArgs, RedQuery, MetricQueryArgs, TopologyQueryArgs, MemoryQueryArgs, ToolArgs, Proposal,
  ReasonerInput, Error, no_more_rules, evidence_corrupt, llm_transport, llm_refused,
  llm_schema_invalid, llm_canary_violation, llm_budget_exceeded, tool_unavailable,
  unknown_investigation, tenant_mismatch, mismatched_args, unknown_tool, bad_payloads,
  journal_create, other_error, Result, ok, err, confidence_threshold, swapped_cap,
  is_fallback_trigger,
}

pub record Journal (J : Type 0) : Type 0 where
  pub create : J → String → Investigation → J × Bool
  pub append_step : J → String → String → Step → J × Bool
  pub steps : J → String → String → Option (List Step)
  pub set_status : J → String → String → InvestigationStatus → Time → J × Bool

pub record ObjectPutter (O : Type 0) : Type 0 where
  pub put_object : O → String → String → Bytes → O × Bool
  pub get_object : O → String → String → Option Bytes

-- `MemJournal`. A missing entry of `steps` is Go's empty slice.
pub record MemJournal : Type 0 where
  pub invs : Assoc Investigation
  pub steps : Assoc (List Step)

abbrev pub new_mem_journal : MemJournal
new_mem_journal = record { invs = []; steps = [] }

abbrev steps_at : String → Assoc (List Step) → List Step
steps_at id m = elim (lookup id m) [ none ↦ [] | some xs ↦ xs ]

-- The investigation of this tenant.
abbrev known : MemJournal → String → String → Option Investigation
known j tid id = elim (lookup id j.invs) [
  | none ↦ none
  | some inv ↦ if str_eq inv.tenant tid then some inv else none
]

unfoldable pub create : MemJournal → String → Investigation → MemJournal × Bool
create j tid inv =
    if not (str_eq inv.tenant tid)
    then (j, false)
    else (record j { invs = put inv.id inv j.invs }, true)

unfoldable pub append_step : MemJournal → String → String → Step → MemJournal × Bool
append_step j tid id st = elim (known j tid id) [
  | none ↦ (j, false)
  | some inv ↦ (record j { steps = put id (steps_at id j.steps ++ st ∷ []) j.steps }, true)
]

unfoldable pub steps : MemJournal → String → String → Option (List Step)
steps j tid id = elim (known j tid id) [ none ↦ none | some inv ↦ some (steps_at id j.steps) ]

unfoldable pub set_status :
    MemJournal → String → String → InvestigationStatus → Time → MemJournal × Bool
set_status j tid id st at = elim (known j tid id) [
  | none ↦ (j, false)
  | some inv ↦ (record j { invs = put id (record inv { status = st; ended_at = at }) j.invs }, true)
]

is_running : InvestigationStatus → Bool
is_running running = true
is_running _ = false

running_of : Assoc Investigation → List Investigation
running_of [] = []
running_of ((k, inv) ∷ m) =
    let rest = running_of m in if is_running inv.status then inv ∷ rest else rest

-- `ListRunning`, in the order of the map's entries.
unfoldable pub list_running : MemJournal → List Investigation
unfolding running_of is_running
list_running j = running_of j.invs

abbrev pub mem_journal : Journal MemJournal
mem_journal = record {
  create = create;
  append_step = append_step;
  steps = steps;
  set_status = set_status;
}

-- `MemObjectStore`: the bodies under tenant and key.
abbrev pub MemObjectStore : Type 0
MemObjectStore = Assoc Bytes

object_key : String → String → String
object_key tid key = join tid (join "/" key)

unfoldable pub put_object : MemObjectStore → String → String → Bytes → MemObjectStore × Bool
unfolding object_key
put_object m tid key body = (put (object_key tid key) body m, true)

unfoldable pub get_object : MemObjectStore → String → String → Option Bytes
unfolding object_key
get_object m tid key = lookup (object_key tid key) m

abbrev pub mem_object_store : ObjectPutter MemObjectStore
mem_object_store = record { put_object = put_object; get_object = get_object }
