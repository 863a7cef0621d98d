-- ===== src/Rca/Investigate.antt =====
-- internal/rca/engine.go: `Investigate` around its loop, and the other methods of the engine but Replay. A
-- call of the mutex-guarded methods is one step. `Setup` has what an investigation meets before and after
-- its loop; the effect of a concurrent `Abort` on it is that a round finds the context done, and the
-- reason that is found at the end.
pub mod Complete
pub mod Swapped
pub mod Ledger
use tracing_bot.Prelude.{
  ℕ, zero, suc, ◌+◌, String, Bool, true, false, ◌&&◌, not, Option, none, some, List, [], ◌∷◌, ◌++◌,
  str_eq, if◌then◌else◌, length,
}
use tracing_bot.Prelude.Assoc.{Assoc, lookup, put}
use tracing_bot.Prelude.Float.{Float, lt_float, le_float}
use Prim.Native.String.{◌++◌ as join}
use tracing_bot.Rca.Types.{
  Time, Phase, contextualize, hypothesize, test, validate, report, InvestigationStatus, running,
  concluded, inconclusive, budget_exhausted, failed, aborted, TerminationReason, term_concluded,
  term_steps, term_tool_calls, term_tokens, term_cached_tokens, term_cost, term_wall_clock,
  term_aborted, term_failed, ReasonerKind, llm, rules, ReplayMode, original, recorded, live_diff,
  ToolName, trace_query, log_query, metric_query, topology_query, memory_query, other_tool,
  StepVerdict, verdict_ok, verdict_invalid_args, verdict_unavailable, verdict_refused,
  verdict_schema_error, Budget, Spend, Charge, no_spend, Hypothesis, ReasonerSwap, Step,
  Investigation, ToolResult, Conclusion, Correction, Incident, AttrEqual, TraceQueryArgs,
  LogQueryArgs, RedQuery, MetricQueryArgs, TopologyQueryArgs, MemoryQueryArgs, ToolArgs, Proposal,
  ReasonerInput, Error, no_more_rules, evidence_corrupt, llm_transport, llm_refused,
  llm_schema_invalid, llm_canary_violation, llm_budget_exceeded, tool_unavailable,
  unknown_investigation, tenant_mismatch, mismatched_args, unknown_tool, bad_payloads,
  journal_create, other_error, Result, ok, err, confidence_threshold, swapped_cap,
  is_fallback_trigger,
}
use tracing_bot.Rca.Budget.{
  default_budget, MemBudget, new_mem_budget, reserve, spend_at, budget_at, add_charge, charge,
  Remaining, difference, remaining, terminated, set_terminated,
}
use tracing_bot.Rca.Interest.{
  PredicateScope, scope_investigation, scope_recurrence, InterestPredicate, dedupe_loop,
  dedupe_truncate, blank, scope_predicate, recurrence_predicate, default_scope_ttl,
  default_recurrence_ttl,
}
use tracing_bot.Rca.Journal.{Journal, ObjectPutter}
use tracing_bot.Rca.Engine.{
  Reasoner, primary, fallback, Deps, Round, Loop, Next, again, stop, is_llm, replace_hypothesis,
  merge_hypotheses, pure_step, verdict_of, is_zero_charge, is_no_more_rules, millis_between,
  count_step, count_call, terminate, budget_stop, input_of, clear_pending, swap_reasoner, on_error,
  take_proposal, put_body, put_reasoner_output, reason_only, refuse_call, put_evidence, run_call,
  round, investigate_loop,
}

-- The engine's state: its collaborators' and its maps; `cancels` has the ids of the investigations
-- whose loop runs.
pub record Engine (J O : Type 0) : Type 0 where
  pub journal : J
  pub objects : Option O
  pub budget : MemBudget
  pub invs : Assoc Investigation
  pub corr : Assoc (List Correction)
  pub cancels : Assoc Bool
  pub abort_reasons : Assoc String

-- `set_predicate` is `none` where there is no sink; it answers `none` where the sink fails.
pub record Setup : Type 0 where
  pub id : String
  pub started_at : Time
  pub first_step_id : String
  pub first_step_at : Time
  pub set_predicate : Option (InterestPredicate → Option String)
  pub scope_at : Time
  pub rounds : ℕ → Round
  pub ended_at : Time
  pub abort_reason : String
  pub conclude : Reasoner → ReasonerInput → Conclusion
  pub build_report : Investigation → String
  pub recurrence_at : Time

pub data InterestCall : Type 0 where
  set_call : InterestPredicate → InterestCall
  remove_call : String → InterestCall

-- `calls` is what the sink was asked, and `sent` what the registry was, newest first.
pub record Outcome (J O : Type 0) : Type 0 where
  pub engine : Engine J O
  pub inv : Investigation
  pub calls : List InterestCall
  pub sent : List ToolArgs

abbrev pub new_investigation : Deps → Setup → String → Incident → Investigation
new_investigation d s tid incident = record {
  id = s.id;
  tenant = tid;
  incident_id = incident.id;
  status = running;
  phase = contextualize;
  hypotheses = [];
  steps = [];
  root_cause = "";
  confidence = 0;
  reasoner_kind = d.kind primary;
  reasoner_swaps = [];
  budget = default_budget;
  spend = no_spend;
  termination_reason = none;
  parent_id = "";
  replay_of = "";
  replay_mode = original;
  report_markdown = "";
  error = "";
  started_at = s.started_at;
  ended_at = 0;
  version = 0;
}

unfoldable pub terminal_status : Option TerminationReason → Float → InvestigationStatus
terminal_status none c = inconclusive
terminal_status (some term_concluded) c =
    if le_float confidence_threshold c then concluded else inconclusive
terminal_status (some term_aborted) c = aborted
terminal_status (some term_failed) c = failed
terminal_status (some term_steps) c = budget_exhausted
terminal_status (some term_tool_calls) c = budget_exhausted
terminal_status (some term_tokens) c = budget_exhausted
terminal_status (some term_cached_tokens) c = budget_exhausted
terminal_status (some term_cost) c = budget_exhausted
terminal_status (some term_wall_clock) c = budget_exhausted

abbrev pub is_concluded : InvestigationStatus → Bool
is_concluded concluded = true
is_concluded _ = false

-- The confidence under the cap of a swapped investigation; a cap of 0 is none.
unfoldable pub capped : Float → Float → Float
capped cap c = if lt_float 0 cap && lt_float cap c then cap else c

abbrev is_aborted : Option TerminationReason → Bool
is_aborted (some term_aborted) = true
is_aborted _ = false

-- The predicate of the first phase: what the sink is asked, and the id that it gives.
abbrev scope_call :
    Setup
    → String
    → Investigation
    → Incident
    → Option (InterestPredicate → Option String)
    → List InterestCall × String
scope_call s tid inv incident none = ([], "")
scope_call s tid inv incident (some set) =
    let p = scope_predicate tid inv incident s.scope_at default_scope_ttl in
    (set_call p ∷ [], elim (set p) [ none ↦ "" | some id ↦ id ])

-- What the sink is asked at the end.
abbrev last_calls :
    Setup
    → String
    → Investigation
    → String
    → Option (InterestPredicate → Option String)
    → List InterestCall
last_calls s tid inv id none = []
last_calls s tid inv id (some set) =
    remove_call (if str_eq id "" then join "rca:" inv.id else id)
    ∷ (if is_concluded inv.status && le_float confidence_threshold inv.confidence
        then set_call (recurrence_predicate tid inv [] [] s.recurrence_at default_recurrence_ttl)
          ∷ []
        else [])

-- From the end of the loop to the investigation that is returned.
unfoldable pub conclude_with : Setup → Incident → {J O : Type 0} → Loop J O → Investigation
unfolding capped terminal_status
conclude_with s incident l =
    let ended = record l.inv {
      ended_at = s.ended_at;
      error =
          if is_aborted l.inv.termination_reason && not (str_eq s.abort_reason "")
          then s.abort_reason
          else l.inv.error;
    } in
    let c = s.conclude l.reasoner (record {
      investigation = ended;
      incident = incident;
      last_args = none;
      last_result = none;
      last_hypothesis_id = "";
    }) in
    let reported = record ended {
      root_cause = c.root_cause;
      confidence = capped l.confidence_cap c.confidence;
      hypotheses = merge_hypotheses ended.hypotheses c.hypotheses;
      phase = report;
    } in
    record reported {
      report_markdown = s.build_report reported;
      status = terminal_status reported.termination_reason reported.confidence;
    }

-- `SetTerminated`; the loop stops with a reason always.
abbrev pub set_reason : MemBudget → String → Option TerminationReason → MemBudget
set_reason b id none = b
set_reason b id (some r) = set_terminated b id r

-- The first step is recorded and counted where the journal keeps it.
abbrev pub with_first : Bool → Step → Investigation → Investigation
with_first true st inv = count_step (record inv { steps = st ∷ [] })
with_first false st inv = inv

module _ {J O : Type 0} (jn : Journal J) (on : ObjectPutter O) (d : Deps) where
  -- The loop's variables before its first round, once the journal has the investigation.
  unfoldable pub first_loop : Setup → String → Incident → Engine J O → J → Loop J O
  unfolding reserve
  first_loop s tid incident e journal =
      let inv = record (new_investigation d s tid incident) { phase = hypothesize } in
      let st = pure_step s.first_step_id 0 contextualize s.first_step_at in
      let (journal', kept) = jn.append_step journal tid s.id st in
      record {
        inv = with_first kept st inv;
        journal = journal';
        objects = e.objects;
        budget = reserve e.budget s.id default_budget;
        reasoner = primary;
        confidence_cap = 0;
        pending_args = none;
        pending_result = none;
        pending_hyp_id = "";
        sent = [];
      }

  -- From the end of the loop to the return.
  unfoldable pub finish : Setup → String → Incident → Engine J O → Loop J O → Outcome J O
  unfolding conclude_with
  finish s tid incident e l =
      let inv = conclude_with s incident l in
      let (scope, scope_id) =
        scope_call s tid (record (new_investigation d s tid incident) { phase = hypothesize })
          incident s.set_predicate in
      record {
        engine = record e {
          journal = (jn.set_status l.journal tid inv.id inv.status inv.ended_at).0;
          objects = l.objects;
          budget = set_reason l.budget inv.id inv.termination_reason;
          invs = put inv.id inv e.invs;
        };
        inv = inv;
        calls = scope ++ last_calls s tid inv scope_id s.set_predicate;
        sent = l.sent;
      }

  -- `Investigate`, with fuel for the rounds of its loop.
  unfoldable pub investigate_within :
      ℕ → Setup → String → Incident → Engine J O → Option (Result (Outcome J O))
  investigate_within fuel s tid incident e =
      let (journal, created) = jn.create e.journal tid (new_investigation d s tid incident) in
      if not created
      then some (err journal_create)
      else elim (investigate_loop jn on d tid incident fuel s.rounds
          (first_loop s tid incident e journal)) [
            | none ↦ none
            | some l ↦ some (ok (finish s tid incident e l))
          ]

  -- One round for each step of the default budget, one for a swap, and one that stops.
  unfoldable pub investigate :
      Setup → String → Incident → Engine J O → Option (Result (Outcome J O))
  unfolding investigate_within
  investigate s tid incident e = investigate_within 26 s tid incident e

abbrev corrections_at : String → Assoc (List Correction) → List Correction
corrections_at id m = elim (lookup id m) [ none ↦ [] | some cs ↦ cs ]

abbrev running_count : Assoc Investigation → ℕ
running_count [] = 0
running_count ((k, inv) ∷ m) = (elim inv.status [ running ↦ 1 | _ ↦ 0 ]) + running_count m

module _ {J O : Type 0} where
  -- The investigation of this tenant.
  abbrev owned : Engine J O → String → String → Option Investigation
  owned e tid id = elim (lookup id e.invs) [
    | none ↦ none
    | some inv ↦ if str_eq inv.tenant tid then some inv else none
  ]

  unfoldable pub get : Engine J O → String → String → Result Investigation
  get e tid id = elim (owned e tid id) [ none ↦ err unknown_investigation | some inv ↦ ok inv ]

  unfoldable pub correct :
      Engine J O → String → String → String → Correction → Engine J O × Result Investigation
  correct e tid id step_id c = elim (owned e tid id) [
    | none ↦ (e, err unknown_investigation)
    | some inv ↦
        let inv' = record inv { version = inv.version + 1 } in
        let c' = record c { target_id = step_id } in
        (
          record e {
            corr = put id (corrections_at id e.corr ++ c' ∷ []) e.corr;
            invs = put id inv' e.invs;
          },
          ok inv',
        )
  ]

  -- `Abort` at a time: whether the context of a running loop is cancelled, and the error.
  unfoldable pub abort :
      Journal J → Engine J O → String → String → String → Time → Engine J O × Result Bool
  abort jn e tid id reason now = elim (owned e tid id) [
    | none ↦ (e, err unknown_investigation)
    | some inv ↦ elim (lookup id e.cancels) [
      | some c ↦ (record e { abort_reasons = put id reason e.abort_reasons }, ok true)
      | none ↦
          let inv' = record inv {
            status = aborted;
            termination_reason = some term_aborted;
            error = reason;
            ended_at = now;
          } in
          (
            record e {
              journal = (jn.set_status e.journal tid id aborted now).0;
              invs = put inv.id inv' e.invs;
            },
            ok false,
          )
    ]
  ]

  -- `Stats().RunningInvestigations`.
  unfoldable pub running_investigations : Engine J O → ℕ
  running_investigations e = running_count e.invs
