-- ===== src/Rca/Scenarios.antt =====
-- One investigation from end to end: the model calls a tool and then fails, the rules finish the work.
use tracing_bot.Prelude.{
  ℕ, zero, suc, String, true, false, Option, none, some, [], ◌∷◌, ◌≡◌, ◌≢◌, refl, ap, sym, arith,
  All, map, length,
}
use tracing_bot.Prelude.Assoc.{lookup, put}
use tracing_bot.Prelude.Float.{le_float}
use Prim.Native.Char.{code}
use text.Mathlib.TextLemmas.{tail-eq_of_cons-eq, nil≢cons}
use tracing_bot.Rca.Types.{
  test, validate, concluded, llm, rules, recorded, log_query, Charge, no_spend, Hypothesis,
  Investigation, ToolResult, Incident, ToolArgs, Proposal, no_more_rules, llm_transport, Result, ok,
  err, confidence_threshold,
}
use tracing_bot.Rca.Tools.{Registry, dispatch, validate_tool_args}
use tracing_bot.Rca.Tools.Dispatch.{Answers, dispatch-Answers}
use tracing_bot.Rca.Budget.{default_budget, new_mem_budget, difference, remaining}
use tracing_bot.Rca.Journal.{
  MemJournal, new_mem_journal, create, append_step, set_status, mem_journal, MemObjectStore,
  mem_object_store,
}
use tracing_bot.Rca.Journal.Memory.{
  IsFresh, mem_journal-KeepsSteps, mem_journal-Fresh, mem_object_store-KeepsBodies,
}
use tracing_bot.Rca.Engine.{
  primary, fallback, Deps, Round, budget_stop, on_error, take_proposal, reason_only, run_call,
  round, investigate_loop,
}
use tracing_bot.Rca.Engine.Evidence.{IsKeyed}
use tracing_bot.Rca.Investigate.{
  Engine, Setup, Outcome, conclude_with, first_loop, finish, investigate,
}
use tracing_bot.Rca.Investigate.Complete.{IsComplete, investigate-Returns, investigate-IsComplete}
use tracing_bot.Rca.Investigate.Swapped.{IsTransient, investigate-swapped}
use tracing_bot.Rca.Investigate.Ledger.{charged, remaining-investigate}
use tracing_bot.Rca.Replay.{ReplaySetup, replay}
use tracing_bot.Rca.Replay.Faithful.{erase, replay-investigate}

abbrev dots : ℕ → String
dots zero = ""
dots (suc n) = String.◌∷◌ "." (dots n)

abbrev deps : Deps
deps = record {
  kind = λ r. elim r [ primary ↦ llm | fallback ↦ rules ];
  has_fallback = true;
  describe = λ e. "error";
  args_json = λ c. 123 ∷ [];
  proposal_json = λ p. some (91 ∷ []);
  sha256_hex = λ b. dots (length b);
  evidence_ref = λ tid id i. String.◌∷◌ "e" (dots i);
  reasoner_ref = λ tid id i. String.◌∷◌ "r" (dots i);
}

dots_inj : (i j : ℕ) → dots i ≡ dots j → i ≡ j
dots_inj zero zero h = refl
dots_inj zero (suc j) h = absurd (nil≢cons h)
dots_inj (suc i) zero h = absurd (nil≢cons (sym h))
dots_inj (suc i) (suc j) h = ap (λ n. suc n) (dots_inj i j (tail-eq_of_cons-eq h))

abbrev first_code : String → ℕ
first_code String.[] = 0
first_code (String.◌∷◌ c s) = code c

r_ne_e : ◌≢◌ {A = ℕ} b'r' b'e'
r_ne_e h = absurd (omega arith)

deps-IsKeyed : IsKeyed deps
deps-IsKeyed = record {
  inj = λ tid id i j h. dots_inj i j (tail-eq_of_cons-eq h);
  apart = λ tid id i j h. r_ne_e (ap first_code h);
}

abbrev no_usage : Charge
no_usage = record { tokens_in = 0; cached_tokens_in = 0; tokens_out = 0; cost_micro_usd = 0 }

abbrev log_call : ToolArgs
log_call = record {
  tenant_id = "";
  tool = log_query;
  trace = none;
  log =
      some (record {
        trace_id = 7;
        service = "";
        start = 0;
        end = 0;
        contains = "timeout";
        limit = 50;
      });
  metric = none;
  topology = none;
  memory = none;
}

abbrev idea : Hypothesis
idea = record {
  id = "h1";
  statement = "the database is slow";
  category = 2;
  component = "db";
  prior_score = 0;
  post_score = 0;
  status = 1;
  source = 4;
}

abbrev asks : Proposal
asks = record {
  phase = test;
  hypotheses = idea ∷ [];
  call = some log_call;
  done = false;
  rationale = "";
  usage = record no_usage { tokens_in = 900; cost_micro_usd = 20 };
}

abbrev thinks : Proposal
thinks = record asks { phase = validate; hypotheses = []; call = none; usage = no_usage }

abbrev rows : ToolResult
rows = record {
  rows = 34 ∷ 34 ∷ [];
  clamped = false;
  truncated = false;
  from_cache = false;
  tool = log_query;
  observed_at = 0;
}

-- By the round: a call, a failure, a thought of the rules, and the end.
abbrev answer : ℕ → Result Proposal
answer zero = ok asks
answer (suc zero) = err llm_transport
answer (suc (suc zero)) = ok thinks
answer (suc (suc (suc n))) = err no_more_rules

abbrev round_at : ℕ → Round
round_at i = record {
  cancelled = false;
  now = 1000;
  next_step = λ who input. answer i;
  step_id = "step";
  started_at = 1000;
  dispatch = λ tid c. (rows, none);
  ended_at = 3001000;
}

abbrev setup : Setup
setup = record {
  id = "inv";
  started_at = 900;
  first_step_id = "first";
  first_step_at = 950;
  set_predicate = some (λ p. some "pred-1");
  scope_at = 960;
  rounds = round_at;
  ended_at = 5000;
  abort_reason = "";
  conclude = λ who input. record {
    root_cause = "slow database";
    confidence = 0x3ff0_0000_0000_0000;
    hypotheses = [];
  };
  build_report = λ inv. "report";
  recurrence_at = 5000;
}

abbrev incident : Incident
incident = record { id = "inc-1"; epicenter_service = "api"; blast_radius = "db" ∷ [] }

abbrev engine : Engine MemJournal MemObjectStore
engine = record {
  journal = new_mem_journal;
  objects = some [];
  budget = new_mem_budget;
  invs = [];
  corr = [];
  cancels = [];
  abort_reasons = [];
}

abbrev the {ℓ} : {A : Type ℓ} → Option (Result A) → A → A
the (some (ok a)) b = a
the (some (err e)) b = b
the none b = b

abbrev returned : Outcome MemJournal MemObjectStore
returned = the (investigate mem_journal mem_object_store deps setup "t" incident engine) (
    finish mem_journal mem_object_store deps setup "t" incident engine
      (first_loop mem_journal mem_object_store deps setup "t" incident engine new_mem_journal))

investigate-returned :
    investigate mem_journal mem_object_store deps setup "t" incident engine ≡ some (ok returned)
unfolding investigate create append_step set_status investigate_loop round budget_stop first_loop
    lookup put validate_tool_args run_call take_proposal on_error reason_only
investigate-returned = refl

investigate-Returns_example :
    (x : Result (Outcome MemJournal MemObjectStore)) × (investigate mem_journal mem_object_store
        deps setup "t" incident engine
      ≡ some x)
investigate-Returns_example =
    investigate-Returns mem_journal mem_object_store deps setup "t" incident engine refl

investigate-IsComplete_example : IsComplete "t" returned
investigate-IsComplete_example =
    investigate-IsComplete mem_journal mem_object_store deps setup "t" incident engine returned
      investigate-returned

returned_swapped : returned.inv.reasoner_swaps ≢ []
unfolding investigate investigate_loop round budget_stop first_loop create append_step set_status
    lookup put validate_tool_args run_call take_proposal on_error reason_only finish conclude_with
returned_swapped h = cc

investigate-swapped_example :
    (le_float confidence_threshold returned.inv.confidence ≡ false)
    × (returned.inv.status ≢ concluded)
    × All IsTransient returned.calls
investigate-swapped_example =
    investigate-swapped mem_journal mem_object_store deps setup "t" incident engine returned
      investigate-returned returned_swapped

remaining-investigate_example :
    remaining returned.engine.budget "inv" ≡ difference default_budget (charged returned.inv.spend)
remaining-investigate_example =
    remaining-investigate mem_journal mem_object_store deps setup "t" incident engine returned
      investigate-returned

IsFresh-journal : IsFresh engine.journal "inv"
unfolding lookup
IsFresh-journal = (refl, refl)

abbrev replay_setup : ReplaySetup
replay_setup = record {
  step_id = λ i. dots i;
  id = "inv-2";
  now = 9000;
  dispatch = λ tid c. (rows, none);
  decode = λ b. some log_call;
  drift_line = λ r n m. r;
}

replay-investigate_example :
    (inv : Investigation) × ((replay mem_journal mem_object_store deps replay_setup "t"
        returned.engine "inv" recorded).1
      ≡ ok inv)
    × (map erase inv.steps ≡ map erase returned.inv.steps)
    × All (λ st. st.investigation_id ≡ "inv-2") inv.steps
    × (inv.replay_of ≡ "inv")
    × (inv.root_cause ≡ returned.inv.root_cause)
    × (inv.status ≡ returned.inv.status)
    × (inv.spend ≡ no_spend)
replay-investigate_example =
    replay-investigate mem_journal mem_object_store deps mem_journal-KeepsSteps
      mem_object_store-KeepsBodies deps-IsKeyed setup replay_setup "t" incident engine returned
      (mem_journal-Fresh new_mem_journal "inv" IsFresh-journal) investigate-returned

abbrev registry : Registry
registry = record {
  trace = none;
  log = some (λ tid q. (rows, none));
  metric = none;
  topology = none;
  memory = none;
}

query_valid : validate_tool_args (record log_call { tenant_id = "t" }) ≡ none
unfolding validate_tool_args
query_valid = refl

dispatch-Answers_example :
    Answers registry "t"
      (record log_call { tenant_id = "t" })
      (dispatch registry "t" (record log_call { tenant_id = "t" }))
dispatch-Answers_example = dispatch-Answers registry "t" log_call query_valid
