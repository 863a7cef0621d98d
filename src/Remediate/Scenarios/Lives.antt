-- ===== src/Remediate/Scenarios/Lives.antt =====
-- The life of a pod's restart, and calls that are repeated.
use tracing_bot.Prelude.{◌≡◌, ◌≢◌, refl, true, false, none, some, [], ◌∷◌, All, arith}
use tracing_bot.Prelude.Assoc.{put}
use tracing_bot.Remediate.Types.{Request, Time}
use tracing_bot.Remediate.Audit.{append}
use tracing_bot.Remediate.Validate.{dns1123, kind_name, validate_proposal, check_allowlists}
use tracing_bot.Remediate.Executor.{stdin_payload, check_payload_scope, verb_for_action}
use tracing_bot.Remediate.Guard.State.{store_idempotency, audit, get, sep_of_duty}
use tracing_bot.Remediate.Guard.Propose.{
  new_action, propose_fresh, propose_resolved, record_proposal,
}
use tracing_bot.Remediate.Guard.Approve.{
  approve, approve_found, approve_proposed, approve_within, approve_commit, reject, reject_found,
}
use tracing_bot.Remediate.Guard.Execute.{
  execute_fresh, execute_resolved, execute_allowed, execute_snapshot, execute_run, execute_payload,
  execute_call, execute_answer,
}
use tracing_bot.Remediate.Guard.Runs.TwoPerson.{is_cleared}
use tracing_bot.Remediate.Guard.Runs.StateMachine.{is_terminal}
use tracing_bot.Prelude.{Bool, List, Option, ap}
use tracing_bot.Prelude.{◌^◌, ◌+◌}
use tracing_bot.Remediate.Types.{ok, expired, proposed, approved, failed}
use tracing_bot.Remediate.Validate.Accepted.{IsAccepted, validate_proposal-IsAccepted}
use tracing_bot.Remediate.Guard.Queries.{stats, expire_due}
use tracing_bot.Remediate.Guard.Sweeps.{stats-expire_due}
use tracing_bot.Remediate.Scenarios.{restart_policy}
use tracing_bot.Prelude.Int.{pos, ◌≤ℤ◌}
use tracing_bot.Prelude.Assoc.{lookup}
use tracing_bot.Prelude.Bytes.{utf8}
use tracing_bot.Remediate.Types.{Action, idempotency_key_reused}
use tracing_bot.Remediate.Guard.State.{
  Deps, Guard, done, refused, fresh, new_guard, budget_used, get_policy, proposal,
  check_idempotency,
}
use tracing_bot.Remediate.Guard.Propose.{propose}
use tracing_bot.Remediate.Guard.Execute.{execute}
use tracing_bot.Remediate.Guard.Idempotency.Executions.{Replays, execute-replay}
use tracing_bot.Remediate.Guard.Idempotency.Proposals.{propose-replay}
use tracing_bot.Remediate.Guard.Runs.{Call, rejecting, proposing, apply, Reach, here, next}
use tracing_bot.Remediate.Guard.Runs.Budget.{InBudget, budget_used-Reach}
use tracing_bot.Remediate.Guard.Runs.StateMachine.{HasFreshId, lookup-Reach_terminal}
use tracing_bot.Remediate.Guard.Runs.TwoPerson.{HasSeparation, approver-ne-proposer}
use tracing_bot.Remediate.Guard.Runs.Calls.{TwoPerson, calls-TwoPerson}
use tracing_bot.Remediate.Guard.Runs.Dispatch.{Dispatches, execute-Dispatches}
use tracing_bot.Remediate.Scenarios.{
  deps_at, config, restart_proposal, alice, bob, proposal_call, approval_call, execution_call,
  after_proposal, after_approval, after_execution,
}

-- The three calls, each with the collaborators of its time.
restart_run :
    (P : Deps → Guard → Type 0)
    → ((t : Time) (g : Guard) → P (deps_at t) g)
    → Reach P (new_guard config) after_execution
restart_run P h =
    next
      (next (next here (deps_at 100) proposal_call (h 100 (new_guard config))) (deps_at 200)
        approval_call (h 200 after_proposal))
      (deps_at 300) execution_call (h 300 after_approval)

no_authz : (t : Time) (g : Guard) → HasSeparation (deps_at t) g
no_authz t g f s e h = cc

separated : Reach HasSeparation (new_guard config) after_execution
separated = restart_run HasSeparation no_authz

calls-TwoPerson_example : All TwoPerson after_execution.calls
calls-TwoPerson_example = calls-TwoPerson config after_execution separated

abbrev action_or : Action → Option Action → Action
action_or a none = a
action_or a (some b) = b

-- The action of the restart as a guard holds it.
abbrev restart_of : Guard → Action
restart_of g =
    action_or (new_action (deps_at 0) g "acme" restart_proposal) (lookup "act-0" g.actions)

executed_found :
    (lookup "act-0" after_execution.actions ≡ some (restart_of after_execution))
    × (is_cleared (restart_of after_execution).state ≡ true)
unfolding new_guard apply propose propose_fresh propose_resolved record_proposal check_idempotency
    dns1123 kind_name utf8 store_idempotency audit append get get_policy sep_of_duty budget_used
    validate_proposal check_allowlists approve approve_found approve_proposed approve_within
    approve_commit execute execute_fresh execute_resolved execute_allowed execute_snapshot
    execute_run execute_payload execute_call execute_answer stdin_payload check_payload_scope
    verb_for_action put lookup
executed_found = (refl, refl)

approver-ne-proposer_example :
    (restart_of after_execution).proposed_by ≢ (restart_of after_execution).approved_by
approver-ne-proposer_example =
    approver-ne-proposer config after_execution "act-0" (restart_of after_execution) separated
      executed_found.0 executed_found.1

in_budget : (t : Time) (g : Guard) → InBudget "acme" (pos 1) (deps_at t) g
unfolding get_policy
in_budget t g pol q = let same : pol ≡ restart_policy = cc in rw same (ground arith)

within_budget : Reach (InBudget "acme" (pos 1)) (new_guard config) after_execution
within_budget = restart_run (InBudget "acme" (pos 1)) in_budget

budget_used-Reach_example : pos (budget_used "acme" "inc-1" after_execution.actions) ≤ℤ pos 1
budget_used-Reach_example =
    budget_used-Reach config "acme" "inc-1" (pos 1) after_execution (omega arith) within_budget

-- The restart is rejected, and then proposed again.
abbrev rejection : Call
rejection = rejecting "acme" "act-0" bob "not now"

abbrev after_rejection : Guard
after_rejection = apply (deps_at 200) after_proposal rejection

abbrev second_proposal : Call
second_proposal = proposing "acme" restart_proposal bob "k9"

rejected_found :
    (lookup "act-0" after_rejection.actions ≡ some (restart_of after_rejection))
    × (is_terminal (restart_of after_rejection).state ≡ true)
    × HasFreshId (deps_at 300) after_rejection
unfolding new_guard apply propose propose_fresh propose_resolved record_proposal check_idempotency
    dns1123 kind_name utf8 store_idempotency audit append get get_policy budget_used
    validate_proposal check_allowlists reject reject_found put lookup
rejected_found = (refl, refl, refl)

lookup-Reach_terminal_example :
    lookup "act-0" (apply (deps_at 300) after_rejection second_proposal).actions
    ≡ some (restart_of after_rejection)
lookup-Reach_terminal_example =
    lookup-Reach_terminal after_rejection "act-0" (restart_of after_rejection)
      (apply (deps_at 300) after_rejection second_proposal) rejected_found.0 rejected_found.1
      (next here (deps_at 300) second_proposal rejected_found.2)

execute-Dispatches_example :
    Dispatches
      (deps_at 300)
      "acme"
      "act-0"
      bob
      "k2"
      after_approval
      (execute (deps_at 300) after_approval "acme" "act-0" bob "k2").0.calls
execute-Dispatches_example = execute-Dispatches (deps_at 300) "acme" "act-0" bob "k2" after_approval

abbrev has_calls : List (Action × Request) → Bool
has_calls [] = false
has_calls (c ∷ rest) = true

execution_calls :
    (has_calls (execute (deps_at 300) after_approval "acme" "act-0" bob "k2").0.calls ≡ true)
    × (has_calls after_approval.calls ≡ false)
unfolding new_guard apply propose propose_fresh propose_resolved record_proposal check_idempotency
    dns1123 kind_name utf8 store_idempotency audit append get get_policy sep_of_duty budget_used
    validate_proposal check_allowlists approve approve_found approve_proposed approve_within
    approve_commit execute execute_fresh execute_resolved execute_allowed execute_snapshot
    execute_run execute_payload execute_call execute_answer stdin_payload check_payload_scope
    verb_for_action put lookup
execution_calls = (refl, refl)

-- Another subject repeats the execution, later.
execute-replay_example :
    Replays
      (deps_at 300)
      (deps_at 400)
      after_approval
      "acme"
      "act-0"
      bob
      alice
      "k2"
      (execute (deps_at 300) after_approval "acme" "act-0" bob "k2")
execute-replay_example =
    execute-replay (deps_at 300) (deps_at 400) after_approval "acme" "act-0" bob alice "k2" refl
      (λ e. cc (execution_calls.0, execution_calls.1, ap has_calls e))

propose_accepted :
    ((propose (deps_at 100) (new_guard config) "acme" restart_proposal alice "k1").1
      ≡ done (restart_of after_proposal))
    × (check_idempotency
          (deps_at 100)
          (new_guard config)
          "acme"
          "propose"
          "k1"
          (proposal restart_proposal)
        ≡ fresh)
unfolding new_guard apply propose propose_fresh propose_resolved record_proposal check_idempotency
    dns1123 kind_name utf8 store_idempotency audit append get_policy budget_used validate_proposal
    check_allowlists put lookup
propose_accepted = (refl, refl)

propose-replay_example :
    (propose
      (deps_at 100)
      (propose (deps_at 100) (new_guard config) "acme" restart_proposal alice "k1").0
      "acme"
      restart_proposal
      alice
      "k1").1
    ≡ refused idempotency_key_reused
propose-replay_example =
    propose-replay (deps_at 100) (new_guard config) "acme" restart_proposal alice alice "k1"
      (restart_of after_proposal) (λ q q' e. e) (unfold new_guard in λ e. cc) propose_accepted.1
      propose_accepted.0

validated : validate_proposal restart_proposal restart_policy ≡ ok tt
unfolding validate_proposal dns1123 utf8
validated = refl

validate_proposal-IsAccepted_example : IsAccepted restart_proposal restart_policy
validate_proposal-IsAccepted_example =
    validate_proposal-IsAccepted restart_proposal restart_policy validated

stats-expire_due_example :
    let (h, n) = expire_due after_approval (10 ^ 18) in
    (stats expired h.actions ≡ stats expired after_approval.actions + n)
    × (stats proposed h.actions + stats approved h.actions + n
        ≡ stats proposed after_approval.actions + stats approved after_approval.actions)
    × (stats failed h.actions ≡ stats failed after_approval.actions)
    × ((expire_due h (10 ^ 18)).1 ≡ 0)
stats-expire_due_example = stats-expire_due after_approval (10 ^ 18) failed refl refl refl
