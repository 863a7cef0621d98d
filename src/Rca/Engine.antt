-- ===== src/Rca/Engine.antt =====
-- internal/rca/engine.go, `Investigate`: one round of the loop in the steps after its early exits. The
-- loop's variables are the record `Loop`. What the collaborators answer is read from `Deps` for the
-- encodings and the wiring and from a `Round` for all else, so that they may answer differently from
-- one round to the next.
pub mod Rounds
pub mod Returns
pub mod Bounds
pub mod Evidence
pub mod Trail
use tracing_bot.Prelude.{
  ℕ, zero, suc, ◌+◌, ◌-◌, ◌/◌, String, Bool, true, false, ◌&&◌, ◌||◌, not, Option, none, some, List,
  [], ◌∷◌, ◌++◌, ltb, leb, ◌==◌, str_eq, if◌then◌else◌, any, length,
}
use tracing_bot.Prelude.Bytes.{Bytes}
use tracing_bot.Prelude.Int.{ℤ, pos, minus}
use tracing_bot.Prelude.Float.{Float, lt_float, le_float}
use tracing_bot.Rca.Types.{
  Time, Phase, contextualize, hypothesize, test, validate, report, InvestigationStatus, running,
  concluded, inconclusive, budget_exhausted, failed, aborted, TerminationReason, term_concluded,
  term_steps, term_tool_calls, term_tokens, term_cached_tokens, term_cost, term_wall_clock,
  term_aborted, term_failed, ReasonerKind, llm, rules, ReplayMode, original, recorded, live_diff,
  ToolName, trace_query, log_query, metric_query, topology_query, memory_query, other_tool,
  StepVerdict, verdict_ok, verdict_invalid_args, verdict_unavailable, verdict_refused,
  verdict_schema_error, Budget, Spend, Charge, no_spend, Hypothesis, ReasonerSwap, Step,
  Investigation, ToolResult, Conclusion, Correction, Incident, AttrEqual, TraceQueryArgs,
  LogQueryArgs, RedQuery, MetricQueryArgs, TopologyQueryArgs, MemoryQueryArgs, ToolArgs, Proposal,
  ReasonerInput, Error, no_more_rules, evidence_corrupt, llm_transport, llm_refused,
  llm_schema_invalid, llm_canary_violation, llm_budget_exceeded, tool_unavailable,
  unknown_investigation, tenant_mismatch, mismatched_args, unknown_tool, bad_payloads,
  journal_create, other_error, Result, ok, err, confidence_threshold, swapped_cap,
  is_fallback_trigger,
}
use tracing_bot.Rca.Tools.{Reply, validate_tool_args, is_some}
use tracing_bot.Rca.Budget.{MemBudget, charge, add_charge}
use tracing_bot.Rca.Journal.{Journal, ObjectPutter}

-- `e.reasoner` and `e.fallback`.
pub data Reasoner : Type 0 where
  primary fallback : Reasoner

-- The formats of fmt, the JSON and the hash of the standard library, and how the engine is wired.
pub record Deps : Type 0 where
  pub kind : Reasoner → ReasonerKind
  pub has_fallback : Bool
  pub describe : Error → String
  pub args_json : ToolArgs → Bytes
  pub proposal_json : Proposal → Option Bytes
  pub sha256_hex : Bytes → String
  pub evidence_ref : String → String → ℕ → String
  pub reasoner_ref : String → String → ℕ → String

-- What one round meets: whether the context is done, the clock at each of its readings, `genID`, the
-- reasoner and the registry.
pub record Round : Type 0 where
  pub cancelled : Bool
  pub now : Time
  pub next_step : Reasoner → ReasonerInput → Result Proposal
  pub step_id : String
  pub started_at : Time
  pub dispatch : String → ToolArgs → Reply
  pub ended_at : Time

-- `sent` is not in the source: the calls that the registry was given, newest first.
pub record Loop (J O : Type 0) : Type 0 where
  pub inv : Investigation
  pub journal : J
  pub objects : Option O
  pub budget : MemBudget
  pub reasoner : Reasoner
  pub confidence_cap : Float
  pub pending_args : Option ToolArgs
  pub pending_result : Option ToolResult
  pub pending_hyp_id : String
  pub sent : List ToolArgs

pub data Next (J O : Type 0) : Type 0 where
  again : Loop J O → Next J O
  stop : Loop J O → Next J O

abbrev pub is_llm : ReasonerKind → Bool
is_llm llm = true
is_llm rules = false

unfoldable pub replace_hypothesis : Hypothesis → List Hypothesis → Option (List Hypothesis)
replace_hypothesis u [] = none
replace_hypothesis u (h ∷ hs) =
    let rest = replace_hypothesis u hs in
    if str_eq h.id u.id
    then some (u ∷ hs)
    else elim rest [ none ↦ none | some hs' ↦ some (h ∷ hs') ]

unfoldable pub merge_hypotheses : List Hypothesis → List Hypothesis → List Hypothesis
unfolding replace_hypothesis
merge_hypotheses hs [] = hs
merge_hypotheses hs (u ∷ us) =
    merge_hypotheses (elim (replace_hypothesis u hs) [ none ↦ hs ++ u ∷ [] | some hs' ↦ hs' ]) us

-- `newPureStep`: neither the investigation nor the tenant is filled in.
abbrev pub pure_step : String → ℕ → Phase → Time → Step
pure_step id seq phase now = record {
  id = id;
  investigation_id = "";
  tenant = "";
  seq = seq;
  phase = phase;
  tool = other_tool "";
  tool_args_json = [];
  tool_args_hash = "";
  tool_result_hash = "";
  tool_result_ref = "";
  tool_result_bytes = 0;
  truncated = false;
  clamped = false;
  from_cache = false;
  reasoner_output_ref = "";
  reasoner_output_hash = "";
  verdict = verdict_ok;
  started_at = now;
  ended_at = now;
  latency_millis = pos 0;
}

abbrev is_unavailable : Error → Bool
is_unavailable tool_unavailable = true
is_unavailable _ = false

abbrev pub verdict_of : Option Error → StepVerdict
verdict_of none = verdict_ok
verdict_of (some e) = if is_unavailable e then verdict_unavailable else verdict_invalid_args

abbrev pub is_zero_charge : Charge → Bool
is_zero_charge c =
    c.tokens_in == 0 && c.cached_tokens_in == 0 && c.tokens_out == 0 && c.cost_micro_usd == 0

abbrev pub is_no_more_rules : Error → Bool
is_no_more_rules no_more_rules = true
is_no_more_rules _ = false

-- The id of the first hypothesis of a proposal.
abbrev first_id : List Hypothesis → String
first_id [] = ""
first_id (h ∷ hs) = h.id

-- `EndedAt.Sub(StartedAt).Milliseconds()`, which truncates towards zero.
unfoldable pub millis_between : Time → Time → ℤ
millis_between from to =
    if leb from to then pos ((to - from) / 1_000_000) else minus ((from - to) / 1_000_000)

-- `inv.Spend.Steps++` and `inv.Spend.ToolCalls++`.
abbrev pub count_step : Investigation → Investigation
count_step inv = record inv { spend = record inv.spend { steps = inv.spend.steps + 1 } }

abbrev pub count_call : Investigation → Investigation
count_call inv = record inv {
  spend = record inv.spend { steps = inv.spend.steps + 1; tool_calls = inv.spend.tool_calls + 1 };
}

module _ {J O : Type 0} where
  -- `inv.TerminationReason = r; break`.
  abbrev pub terminate : TerminationReason → Loop J O → Loop J O
  terminate r l = record l { inv = record l.inv { termination_reason = some r } }

  -- The tests at the head of the loop, in their order.
  unfoldable pub budget_stop : Deps → Round → Loop J O → Option TerminationReason
  budget_stop d r l =
      let b = l.inv.budget in
      let s = l.inv.spend in
      let is_model = is_llm (d.kind l.reasoner) in
      if r.cancelled
      then some term_aborted
      else if ltb (l.inv.started_at + b.wall_clock) r.now
      then some term_wall_clock
      else if leb b.max_steps s.steps
      then some term_steps
      else if leb b.max_tool_calls s.tool_calls
      then some term_tool_calls
      else if is_model && leb b.max_tokens_in s.tokens_in
      then some term_tokens
      else if is_model && leb b.max_cached_tokens_in s.cached_tokens_in
      then some term_cached_tokens
      else if leb b.max_cost_micro_usd s.cost_micro_usd
      then some term_cost
      else none

  -- The `State` of this round, and the loop without what was pending.
  abbrev pub input_of : Incident → Loop J O → ReasonerInput
  input_of incident l = record {
    investigation = l.inv;
    incident = incident;
    last_args = l.pending_args;
    last_result = l.pending_result;
    last_hypothesis_id = l.pending_hyp_id;
  }

  abbrev pub clear_pending : Loop J O → Loop J O
  clear_pending l = record l { pending_args = none; pending_result = none; pending_hyp_id = "" }

  -- The swap to the fallback reasoner.
  unfoldable pub swap_reasoner : Deps → Round → Error → Loop J O → Loop J O
  swap_reasoner d r e l = record l {
    inv = record l.inv {
      reasoner_swaps =
          l.inv.reasoner_swaps
          ++ record {
            at_step = length l.inv.steps;
            from = d.kind l.reasoner;
            to = d.kind fallback;
            reason = d.describe e;
            at = r.started_at;
          }
            ∷ [];
      reasoner_kind = d.kind fallback;
    };
    reasoner = fallback;
    confidence_cap = swapped_cap;
  }

  -- What follows an error of `NextStep`.
  unfoldable pub on_error : Deps → Round → Error → Loop J O → Next J O
  unfolding swap_reasoner is_fallback_trigger
  on_error d r e l =
      if is_no_more_rules e
      then stop (terminate term_concluded l)
      else if is_llm (d.kind l.reasoner) && d.has_fallback && is_fallback_trigger e
      then again (swap_reasoner d r e l)
      else stop (record l {
        inv = record l.inv { termination_reason = some term_failed; error = d.describe e };
      })

  -- Merging the hypotheses and charging the usage.
  unfoldable pub take_proposal : Proposal → Loop J O → Loop J O
  take_proposal p l =
      let hs = merge_hypotheses l.inv.hypotheses p.hypotheses in
      if is_zero_charge p.usage
      then record l { inv = record l.inv { hypotheses = hs } }
      else record l {
        inv = record l.inv { hypotheses = hs; spend = add_charge l.inv.spend p.usage };
        budget = charge l.budget l.inv.id p.usage;
      }

module _ {J O : Type 0} (jn : Journal J) (on : ObjectPutter O) (d : Deps) where
  -- `objects.Put`, where there is a store: the store, and whether the body was put.
  abbrev pub put_body : Option O → String → String → Bytes → Option O × Bool
  put_body none tid key body = (none, false)
  put_body (some o) tid key body = let r = on.put_object o tid key body in (some r.0, r.1)

  -- `putReasonerOutput`, where there is an encoding: the store, the reference and the hash.
  abbrev put_output : Option O → String → String → Option Bytes → Option O × String × String
  put_output objects tid ref none = (objects, "", "")
  put_output objects tid ref (some body) =
      let r = put_body objects tid ref body in
      (r.0, if r.1 then ref else "", if r.1 then d.sha256_hex body else "")

  unfoldable pub put_reasoner_output :
      Option O → String → String → ℕ → Proposal → Option O × String × String
  put_reasoner_output objects tid id seq p =
      put_output objects tid (d.reasoner_ref tid id seq) (d.proposal_json p)

  -- A step without a call.
  unfoldable pub reason_only : String → Round → Proposal → Loop J O → Loop J O
  unfolding put_reasoner_output
  reason_only tid r p l =
      let seq = length l.inv.steps in
      let (objects, ref, hash) = put_reasoner_output l.objects tid l.inv.id seq p in
      let st = record (pure_step r.step_id seq p.phase r.started_at) {
        reasoner_output_ref = ref;
        reasoner_output_hash = hash;
      } in
      let (journal, kept) = jn.append_step l.journal tid l.inv.id st in
      record l {
        inv =
            count_step
              (record l.inv { steps = if kept then l.inv.steps ++ st ∷ [] else l.inv.steps });
        journal = journal;
        objects = objects;
      }

  -- What the steps of a call have in common.
  abbrev call_step : String → Round → Proposal → ToolArgs → Loop J O → Step
  call_step tid r p c l = record (pure_step r.step_id (length l.inv.steps) p.phase r.started_at) {
    investigation_id = l.inv.id;
    tenant = tid;
    tool = c.tool;
    tool_args_json = d.args_json c;
    tool_args_hash = d.sha256_hex (d.args_json c);
    ended_at = r.ended_at;
  }

  -- A call that `validateToolArgs` refuses.
  unfoldable pub refuse_call : String → Round → Proposal → ToolArgs → Loop J O → Loop J O
  refuse_call tid r p c l =
      let st = record (call_step tid r p c l) { verdict = verdict_invalid_args } in
      let (journal, kept) = jn.append_step l.journal tid l.inv.id st in
      record l {
        inv = count_call (record l.inv { steps = l.inv.steps ++ st ∷ [] });
        journal = journal;
      }

  -- The evidence of a result: the store, the hash and the reference.
  unfoldable pub put_evidence : Option O → String → String → ℕ → Bytes → Option O × String × String
  put_evidence objects tid id seq [] = (objects, "", "")
  put_evidence objects tid id seq (b ∷ rows) =
      let r = put_body objects tid (d.evidence_ref tid id seq) (b ∷ rows) in
      (r.0, d.sha256_hex (b ∷ rows), if r.1 then d.evidence_ref tid id seq else "")

  -- The store after a result, and what the step keeps of it.
  abbrev evidence_of : String → Round → Proposal → ToolArgs → Loop J O → Option O × String × String
  evidence_of tid r p c l =
      put_evidence l.objects tid l.inv.id (length l.inv.steps) (r.dispatch tid c).0.rows

  abbrev output_of : String → Round → Proposal → ToolArgs → Loop J O → Option O × String × String
  output_of tid r p c l =
      put_reasoner_output (evidence_of tid r p c l).0 tid l.inv.id (length l.inv.steps) p

  -- The step of a call that the registry was given.
  abbrev ran_step : String → Round → Proposal → ToolArgs → Loop J O → Step
  ran_step tid r p c l =
      let (result, failure) = r.dispatch tid c in
      record (call_step tid r p c l) {
        verdict = verdict_of failure;
        truncated = result.truncated;
        clamped = result.clamped;
        from_cache = result.from_cache;
        tool_result_bytes = length result.rows;
        latency_millis = millis_between r.started_at r.ended_at;
        tool_result_hash = (evidence_of tid r p c l).1;
        tool_result_ref = (evidence_of tid r p c l).2;
        reasoner_output_ref = (output_of tid r p c l).1;
        reasoner_output_hash = (output_of tid r p c l).2;
      }

  -- A call that the registry is given.
  unfoldable pub run_call : String → Round → Proposal → ToolArgs → Loop J O → Loop J O
  unfolding put_evidence put_reasoner_output charge
  run_call tid r p c l =
      let (result, failure) = r.dispatch tid c in
      let st = ran_step tid r p c l in
      let (journal, kept) = jn.append_step l.journal tid l.inv.id st in
      record l {
        inv = count_call (record l.inv { steps = l.inv.steps ++ st ∷ [] });
        journal = journal;
        objects = (output_of tid r p c l).0;
        budget =
            charge l.budget l.inv.id
              (record { tokens_in = 0; cached_tokens_in = 0; tokens_out = 0; cost_micro_usd = 0 });
        pending_args = some c;
        pending_result = if is_some failure then none else some result;
        pending_hyp_id = first_id p.hypotheses;
        sent = c ∷ l.sent;
      }

  -- What follows the check of a call.
  abbrev after_check : String → Round → Proposal → ToolArgs → Loop J O → Option Error → Next J O
  after_check tid r p c l none = again (run_call tid r p c l)
  after_check tid r p c l (some e) = again (refuse_call tid r p c l)

  -- What follows a proposal that has been taken, by its `Done` and its `Call`.
  abbrev on_proposal : String → Round → Proposal → Loop J O → Bool → Option ToolArgs → Next J O
  on_proposal tid r p l true call = stop (terminate term_concluded l)
  on_proposal tid r p l false none = again (reason_only tid r p l)
  on_proposal tid r p l false (some call) =
      let c = record call { tenant_id = tid } in after_check tid r p c l (validate_tool_args c)

  -- What follows the answer of `NextStep`; the pending values have been cleared.
  abbrev after_reply : String → Round → Loop J O → Result Proposal → Next J O
  after_reply tid r l (err e) = on_error d r e l
  after_reply tid r l (ok p) = on_proposal tid r p (take_proposal p l) p.done p.call

  abbrev after_tests : String → Incident → Round → Loop J O → Option TerminationReason → Next J O
  after_tests tid incident r l (some reason) = stop (terminate reason l)
  after_tests tid incident r l none =
      after_reply tid r (clear_pending l) (r.next_step l.reasoner (input_of incident l))

  -- One round of the loop.
  unfoldable pub round : String → Incident → Round → Loop J O → Next J O
  round tid incident r l = after_tests tid incident r l (budget_stop d r l)

  -- The loop, with fuel for its rounds; `none` means that the fuel ran out.
  unfoldable pub investigate_loop :
      String → Incident → ℕ → (ℕ → Round) → Loop J O → Option (Loop J O)
  investigate_loop tid incident zero rs l = none
  investigate_loop tid incident (suc n) rs l = elim (round tid incident (rs 0) l) [
    | stop l' ↦ some l'
    | again l' ↦ investigate_loop tid incident n (λ i. rs (suc i)) l'
  ]
