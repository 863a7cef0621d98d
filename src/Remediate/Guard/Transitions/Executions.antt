-- ===== src/Remediate/Guard/Transitions/Executions.antt =====
-- guard.go: what `Execute` does to the action that it names.
use tracing_bot.Prelude.{String, ◌≡◌, true, arith, str_eq, Bool-cases, inl, inr, ap, Option-cases}
use tracing_bot.Prelude.Bytes.{Bytes}
use tracing_bot.Prelude.Assoc.{put, put-put, Assoc}
use tracing_bot.Remediate.Types.{
  TenantId, Action, approved, state_eq, Subject, ok, err, Result, Request, Verb, Result-cases,
}
use tracing_bot.Remediate.Guard.State.{Deps, Guard, audit, store_idempotency}
use tracing_bot.Remediate.Executor.{stdin_payload, check_payload_scope, verb_for_action}
use tracing_bot.Remediate.Guard.Execute.{
  execute_answer, execute_call, execute_payload, execute_run, execute_snapshot, execute_allowed,
  execute_resolved, execute_fresh,
}
use tracing_bot.Remediate.Guard.Transitions.{after, Fits}

-- What of an approved action `a₀` an intermediate version still has.
record Carries (a₀ a : Action) : Type 0 where
  start : state_eq a₀.state approved ≡ true
  tenant : a.tenant ≡ a₀.tenant
  incident : a.incident_id ≡ a₀.incident_id
  proposer : a.proposed_by ≡ a₀.proposed_by
  approver : a.approved_by ≡ a₀.approved_by
  type_kept : a.proposal.action_type ≡ a₀.proposal.action_type
  tier_kept : a.proposal.risk_tier ≡ a₀.proposal.risk_tier

module _ (d : Deps) (tid : TenantId) (id : String) (by : Subject) (idem : String) where
  -- From Executing on, the last write to the action is the one that the reply shows.
  module _ (m : Assoc Action) (x : Action) where
    execute_answer-after :
        (g : Guard) (a : Action) (res : Result Bytes)
        → g.actions ≡ put id x m
        → let r = execute_answer d g tid id by idem a res in r.0.actions ≡ after id r.1 m
    unfolding execute_answer audit store_idempotency
    execute_answer-after g a (ok out) h = elim (Bool-cases (str_eq idem "")) [
      | inl none_given ↦ rw (none_given, h) (put-put id x _ m)
      | inr given ↦ rw (given, h) (put-put id x _ m)
    ]
    execute_answer-after g a (err e) h = elim (Bool-cases (str_eq idem "")) [
      | inl none_given ↦ rw (none_given, h) (put-put id x _ m)
      | inr given ↦ rw (given, h) (put-put id x _ m)
    ]

    execute_payload-after :
        (g : Guard) (a : Action) (exec : Request → Result Bytes) (verb : Verb)
        → g.actions ≡ put id x m
        → let r = execute_payload d g tid id by idem a exec verb in r.0.actions ≡ after id r.1 m
    unfolding execute_payload execute_call audit
    execute_payload-after g a exec verb h = elim (Result-cases (stdin_payload d.json a)) [
      | inr (e, s) ↦ rw (s, execute_payload, h) (put-put id x _ m)
      | inl (stdin, s) ↦
          elim (Result-cases (check_payload_scope d.json d.path_match a.proposal stdin)) [
            | inr (e, c) ↦ rw (s, execute_payload, c, h) (put-put id x _ m)
            | inl (u, c) ↦ rw (s, execute_payload, c) (execute_answer-after _ _ _ h)
          ]
    ]

  module _ (m : Assoc Action) where
    execute_run-after :
        (g : Guard) (a : Action)
        → g.actions ≡ m
        → let r = execute_run d g tid id by idem a in r.0.actions ≡ after id r.1 m
    unfolding execute_run audit
    execute_run-after g a h = elim (Option-cases (d.executors a.executor_kind)) [
      | inl missing ↦ rw (missing, execute_run, h) (put-put id _ _ m)
      | inr (exec, e) ↦ elim (Result-cases (verb_for_action a.proposal.action_type)) [
        | inr (x, v) ↦ rw (e, execute_run, v, h) (put-put id _ _ m)
        | inl (verb, v) ↦
            rw (e, execute_run, v) (execute_payload-after m _ _ _ exec verb (ap (put id _) h))
      ]
    ]

    execute_snapshot-after :
        (g : Guard) (a : Action)
        → g.actions ≡ m
        → let r = execute_snapshot d g tid id by idem a in r.0.actions ≡ after id r.1 m
    unfolding execute_snapshot audit
    execute_snapshot-after g a h = grind (arith, execute_run-after)

    execute_allowed-after :
        (g : Guard) (a : Action)
        → g.actions ≡ m
        → let r = execute_allowed d g tid id by idem a in r.0.actions ≡ after id r.1 m
    unfolding execute_allowed audit
    execute_allowed-after g a h = grind (arith, execute_snapshot-after)

    execute_resolved-after :
        (g : Guard) (a : Action)
        → g.actions ≡ m
        → let r = execute_resolved d g tid id by idem a in r.0.actions ≡ after id r.1 m
    unfolding execute_resolved audit
    execute_resolved-after g a h = grind (arith, execute_allowed-after)

  pub execute_fresh-after :
      (g : Guard) (a : Action)
      → let r = execute_fresh d g tid id by idem a in r.0.actions ≡ after id r.1 g.actions
  unfolding execute_fresh audit
  execute_fresh-after g a = ground (arith, execute_resolved-after g.actions g a)

  module _ (a₀ : Action) where
    execute_answer-Fits :
        (g : Guard) (a : Action) (res : Result Bytes)
        → Carries a₀ a
        → Fits d a₀ (execute_answer d g tid id by idem a res).1
    unfolding execute_answer
    execute_answer-Fits g a (ok out) c = ground arith
    execute_answer-Fits g a (err e) c = ground arith

    execute_payload-Fits :
        (g : Guard) (a : Action) (exec : Request → Result Bytes) (verb : Verb)
        → Carries a₀ a
        → Fits d a₀ (execute_payload d g tid id by idem a exec verb).1
    unfolding execute_payload execute_call
    execute_payload-Fits g a exec verb c = elim (Result-cases (stdin_payload d.json a)) [
      | inr (e, s) ↦ rw (s, execute_payload) (ground arith)
      | inl (stdin, s) ↦
          elim (Result-cases (check_payload_scope d.json d.path_match a.proposal stdin)) [
            | inr (e, k) ↦ rw (s, execute_payload, k) (ground arith)
            | inl (u, k) ↦ rw (s, execute_payload, k) (execute_answer-Fits _ _ _ (ground arith))
          ]
    ]

    execute_run-Fits :
        (g : Guard) (a : Action) → Carries a₀ a → Fits d a₀ (execute_run d g tid id by idem a).1
    unfolding execute_run
    execute_run-Fits g a c = elim (Option-cases (d.executors a.executor_kind)) [
      | inl missing ↦ rw (missing, execute_run) (ground arith)
      | inr (exec, e) ↦ elim (Result-cases (verb_for_action a.proposal.action_type)) [
        | inr (x, v) ↦ rw (e, execute_run, v) (ground arith)
        | inl (verb, v) ↦ rw (e, execute_run, v) (execute_payload-Fits _ _ exec verb (ground arith))
      ]
    ]

    execute_snapshot-Fits :
        (g : Guard) (a : Action)
        → Carries a₀ a
        → a.state ≡ a₀.state
        → Fits d a₀ (execute_snapshot d g tid id by idem a).1
    unfolding execute_snapshot
    execute_snapshot-Fits g a c h = grind (arith, execute_run-Fits)

    execute_allowed-Fits :
        (g : Guard) (a : Action)
        → Carries a₀ a
        → a.state ≡ a₀.state
        → Fits d a₀ (execute_allowed d g tid id by idem a).1
    unfolding execute_allowed
    execute_allowed-Fits g a c h = grind (arith, execute_snapshot-Fits)

    execute_resolved-Fits :
        (g : Guard) (a : Action)
        → Carries a₀ a
        → a.state ≡ a₀.state
        → Fits d a₀ (execute_resolved d g tid id by idem a).1
    unfolding execute_resolved
    execute_resolved-Fits g a c h = grind (arith, execute_allowed-Fits)

  pub execute_fresh-Fits :
      (g : Guard) (a : Action) → Fits d a (execute_fresh d g tid id by idem a).1
  unfolding execute_fresh
  execute_fresh-Fits g a = ground (arith, execute_resolved-Fits a g a)
