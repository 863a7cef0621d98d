-- ===== src/Rca/Replay.antt =====
-- internal/rca/engine.go: `Replay` of a recorded investigation, from the journal's steps and the stored
-- evidence, and against the live tools.
pub mod Faithful
use tracing_bot.Prelude.{
  ℕ, zero, suc, ◌+◌, String, Bool, true, false, ◌||◌, Option, none, some, List, [], ◌∷◌, str_eq,
  if◌then◌else◌, is_empty, length,
}
use tracing_bot.Prelude.Assoc.{put}
use tracing_bot.Prelude.Bytes.{Bytes}
use tracing_bot.Prelude.Int.{ℤ, pos}
use tracing_bot.Rca.Types.{
  Time, Phase, contextualize, hypothesize, test, validate, report, InvestigationStatus, running,
  concluded, inconclusive, budget_exhausted, failed, aborted, TerminationReason, term_concluded,
  term_steps, term_tool_calls, term_tokens, term_cached_tokens, term_cost, term_wall_clock,
  term_aborted, term_failed, ReasonerKind, llm, rules, ReplayMode, original, recorded, live_diff,
  ToolName, trace_query, log_query, metric_query, topology_query, memory_query, other_tool,
  StepVerdict, verdict_ok, verdict_invalid_args, verdict_unavailable, verdict_refused,
  verdict_schema_error, Budget, Spend, Charge, no_spend, Hypothesis, ReasonerSwap, Step,
  Investigation, ToolResult, Conclusion, Correction, Incident, AttrEqual, TraceQueryArgs,
  LogQueryArgs, RedQuery, MetricQueryArgs, TopologyQueryArgs, MemoryQueryArgs, ToolArgs, Proposal,
  ReasonerInput, Error, no_more_rules, evidence_corrupt, llm_transport, llm_refused,
  llm_schema_invalid, llm_canary_violation, llm_budget_exceeded, tool_unavailable,
  unknown_investigation, tenant_mismatch, mismatched_args, unknown_tool, bad_payloads,
  journal_create, nil_store, other_error, Result, ok, err, confidence_threshold, swapped_cap,
  is_fallback_trigger,
}
use tracing_bot.Rca.Tools.{Reply, is_some}
use tracing_bot.Rca.Journal.{Journal, ObjectPutter}
use tracing_bot.Rca.Engine.{Deps}
use tracing_bot.Rca.Investigate.{Engine, get}

-- What a replay meets: the ids that it draws, the clock, the registry, `decodeToolArgs`, and the line that
-- it adds to a report.
pub record ReplaySetup : Type 0 where
  pub step_id : ℕ → String
  pub id : String
  pub now : Time
  pub dispatch : String → ToolArgs → Reply
  pub decode : Bytes → Option ToolArgs
  pub drift_line : String → ℕ → ℕ → String

-- The check of a step's evidence.
unfoldable pub verify_evidence :
    {O : Type 0} → ObjectPutter O → Deps → Option O → String → Step → Option Error
verify_evidence on d none tid st = if str_eq st.tool_result_ref "" then none else some nil_store
verify_evidence on d (some o) tid st =
    if str_eq st.tool_result_ref "" then none else elim (on.get_object o tid st.tool_result_ref) [
      | none ↦ some evidence_corrupt
      | some body ↦
          if str_eq (d.sha256_hex body) st.tool_result_hash then none else some evidence_corrupt
    ]

-- A step of the replay, with its new ids and no times.
abbrev pub replayed : String → String → Step → Step
replayed id inv_id st = record st {
  id = id;
  investigation_id = inv_id;
  started_at = 0;
  ended_at = 0;
  latency_millis = pos 0;
}

abbrev cons_result : Step → Result (List Step) → Result (List Step)
cons_result st (ok ss) = ok (st ∷ ss)
cons_result st (err e) = err e

-- The loop over the steps: the first step whose evidence is bad ends it.
unfoldable pub replay_steps :
    {O : Type 0}
    → ObjectPutter O
    → Deps
    → Option O
    → String
    → (ℕ → String)
    → String
    → List Step
    → Result (List Step)
unfolding verify_evidence
replay_steps on d objects tid ids inv_id [] = ok []
replay_steps on d objects tid ids inv_id (st ∷ ss) =
    let rest = replay_steps on d objects tid (λ i. ids (suc i)) inv_id ss in
    elim (verify_evidence on d objects tid st) [
      | some e ↦ err e
      | none ↦ cons_result (replayed (ids 0) inv_id st) rest
    ]

abbrev pub replay_of_recorded : ReplaySetup → Investigation → List Step → Investigation
replay_of_recorded s inv ss = record inv {
  id = s.id;
  parent_id = inv.id;
  replay_of = inv.id;
  replay_mode = recorded;
  spend = record {
    tokens_in = 0;
    cached_tokens_in = 0;
    tokens_out = 0;
    cost_micro_usd = 0;
    tool_calls = 0;
    steps = 0;
  };
  started_at = 0;
  ended_at = 0;
  steps = ss;
}

is_tool : ToolName → Bool
is_tool (other_tool n) = if str_eq n "" then false else true
is_tool _ = true

-- Whether a step's call is dispatched again and its result differs from the recorded one.
unfoldable pub is_drifted : Deps → ReplaySetup → String → Step → Bool
unfolding is_tool
is_drifted d s tid st =
    if is_tool st.tool
    then if is_empty st.tool_args_json then false else elim (s.decode st.tool_args_json) [
      | none ↦ true
      | some args ↦
          let r = s.dispatch tid (record args { tenant_id = tid }) in
          if is_some r.1
          then false
          else if str_eq (d.sha256_hex r.0.rows) st.tool_result_hash
          then false
          else true
    ]
    else false

unfoldable pub drifted : Deps → ReplaySetup → String → List Step → ℕ
unfolding is_drifted
drifted d s tid [] = 0
drifted d s tid (st ∷ ss) = let n = drifted d s tid ss in if is_drifted d s tid st then suc n else n

module _ {J O : Type 0} (jn : Journal J) (on : ObjectPutter O) (d : Deps) where
  -- `AppendStep` of each step, its errors ignored.
  append_all : J → String → String → List Step → J
  append_all j tid id [] = j
  append_all j tid id (st ∷ ss) = append_all (jn.append_step j tid id st).0 tid id ss

  -- `replayRecorded`.
  unfoldable pub replay_recorded :
      ReplaySetup
      → String
      → Engine J O
      → Investigation
      → List Step
      → Engine J O × Result Investigation
  unfolding replay_steps append_all
  replay_recorded s tid e inv steps = elim (replay_steps on d e.objects tid s.step_id s.id steps) [
    | err x ↦ (e, err x)
    | ok ss ↦
        let inv' = replay_of_recorded s inv ss in
        let created = (jn.create e.journal tid inv').0 in
        let appended = append_all created tid s.id ss in
        (
          record e {
            journal = (jn.set_status appended tid s.id inv'.status s.now).0;
            invs = put s.id inv' e.invs;
          },
          ok inv',
        )
  ]

  -- `replayLiveDiff`.
  unfoldable pub replay_live_diff :
      ReplaySetup
      → String
      → Engine J O
      → Investigation
      → List Step
      → Engine J O × Result Investigation
  unfolding drifted
  replay_live_diff s tid e inv steps =
      let inv' = record (replay_of_recorded s inv inv.steps) {
        replay_mode = live_diff;
        started_at = inv.started_at;
        ended_at = inv.ended_at;
        report_markdown = s.drift_line inv.report_markdown (drifted d s tid steps) (length steps);
      } in
      (record e { invs = put s.id inv' e.invs }, ok inv')

  -- The two modes; any other mode is the recorded one.
  abbrev by_mode :
      ReplayMode
      → ReplaySetup
      → String
      → Engine J O
      → Investigation
      → List Step
      → Engine J O × Result Investigation
  by_mode live_diff = replay_live_diff
  by_mode recorded = replay_recorded
  by_mode original = replay_recorded

  -- `Replay`.
  unfoldable pub replay :
      ReplaySetup → String → Engine J O → String → ReplayMode → Engine J O × Result Investigation
  unfolding get replay_recorded replay_live_diff
  replay s tid e id mode = elim (get e tid id) [
    | err x ↦ (e, err x)
    | ok inv ↦ elim (jn.steps e.journal tid id) [
      | none ↦ (e, err unknown_investigation)
      | some steps ↦ by_mode mode s tid e inv steps
    ]
  ]
