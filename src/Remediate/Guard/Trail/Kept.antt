-- ===== src/Remediate/Guard/Trail/Kept.antt =====
-- guard.go: no call takes an entry out of the audit log.
use tracing_bot.Prelude.{ℕ, String, List, arith}
use tracing_bot.Prelude.Bytes.{Bytes}
use tracing_bot.Remediate.Types.{
  TenantId, ActionProposal, Action, Policy, Subject, ok, err, Result, Verb, Request,
}
use mathlib.Core.List.{Memᴰ}
use mathlib.Core.List.Memᴰ
use tracing_bot.Remediate.Audit.{append, StoredEvent}
use tracing_bot.Remediate.Guard.State.{Deps, Guard, Detail, audit, store_idempotency}
use tracing_bot.Remediate.Guard.Propose.{record_proposal, propose_resolved, propose_fresh, propose}
use tracing_bot.Remediate.Guard.Approve.{
  ApprovalRequest, approve_commit, approve_within, approve_override, approve_proposed,
  approve_found, approve, reject_found, reject,
}
use tracing_bot.Remediate.Guard.Execute.{
  execute_answer, execute_call, execute_payload, execute_run, execute_snapshot, execute_allowed,
  execute_resolved, execute_fresh, execute,
}
use tracing_bot.Remediate.Guard.Settle.{
  verify_found, verify, roll_back_now, rollback_live, rollback_found, rollback,
}
use tracing_bot.Remediate.Guard.Queries.{expire_due}
use tracing_bot.Remediate.Guard.Runs.{
  Call, proposing, approving, rejecting, executing_call, verifying_call, rolling_back, expiring,
  apply,
}

-- The log has the entry.
abbrev pub Has : StoredEvent → Guard → Type 0
Has entry g = Memᴰ entry g.audit_log.entries

module _ (entry : StoredEvent) where
  audit-Has :
      (d : Deps) (k : ℕ) (g : Guard) (tid : TenantId) (actor action : String)
      (payload : List (String × Detail))
      → Has entry g
      → Has entry (audit d k g tid actor action payload)
  unfolding audit append
  audit-Has d k g tid actor action payload s = Memᴰ.append_left _ s

  module _ (d : Deps) (tid : TenantId) (by : Subject) (idem : String) where
    record_proposal-Has :
        (g : Guard) (p : ActionProposal)
        → Has entry g
        → Has entry (record_proposal d g tid p by idem).0
    unfolding record_proposal store_idempotency
    record_proposal-Has g p s = grind (arith, audit-Has)

    propose-Has :
        (g : Guard) (p : ActionProposal) → Has entry g → Has entry (propose d g tid p by idem).0
    unfolding propose propose_fresh propose_resolved
    propose-Has g p s = grind (arith, audit-Has, record_proposal-Has)

    module _ (id : String) where
      answer-Has :
          (g : Guard) (a : Action) (res : Result Bytes)
          → Has entry g
          → Has entry (execute_answer d g tid id by idem a res).0
      unfolding execute_answer store_idempotency
      answer-Has g a (ok out) s = grind (arith, audit-Has)
      answer-Has g a (err e) s = grind (arith, audit-Has)

      payload-Has :
          (g : Guard) (a : Action) (exec : Request → Result Bytes) (verb : Verb)
          → Has entry g
          → Has entry (execute_payload d g tid id by idem a exec verb).0
      unfolding execute_payload execute_call
      payload-Has g a exec verb s = grind (arith, audit-Has, answer-Has)

      run-Has :
          (g : Guard) (a : Action) → Has entry g → Has entry (execute_run d g tid id by idem a).0
      unfolding execute_run
      run-Has g a s = grind (arith, audit-Has, payload-Has)

      allowed-Has :
          (g : Guard) (a : Action)
          → Has entry g
          → Has entry (execute_allowed d g tid id by idem a).0
      unfolding execute_allowed execute_snapshot
      allowed-Has g a s = grind (arith, audit-Has, run-Has)

      execute-Has : (g : Guard) → Has entry g → Has entry (execute d g tid id by idem).0
      unfolding execute execute_fresh execute_resolved
      execute-Has g s = grind (arith, audit-Has, allowed-Has)

  module _ (d : Deps) (tid : TenantId) (id : String) (by : Subject) where
    commit-Has :
        (k : ℕ) (g : Guard) (pol : Policy) (a : Action)
        → Has entry g
        → Has entry (approve_commit d k g tid id by pol a).0
    unfolding approve_commit
    commit-Has k g pol a s = audit-Has d _ _ _ _ _ _ s

    approve-Has :
        (g : Guard) (req : ApprovalRequest) → Has entry g → Has entry (approve d g tid id by req).0
    unfolding approve approve_found approve_proposed approve_override approve_within
    approve-Has g req s = grind (arith, audit-Has, commit-Has)

    reject-Has :
        (g : Guard) (reason : String) → Has entry g → Has entry (reject d g tid id by reason).0
    unfolding reject reject_found
    reject-Has g reason s = grind (arith, audit-Has)

    verify-Has : (g : Guard) → Has entry g → Has entry (verify d g tid id).0
    unfolding verify verify_found
    verify-Has g s = grind (arith, audit-Has)

    rollback-Has :
        (g : Guard) (reason : String) → Has entry g → Has entry (rollback d g tid id by reason).0
    unfolding rollback rollback_found rollback_live roll_back_now
    rollback-Has g reason s = grind (arith, audit-Has)

  pub apply-Has : (d : Deps) (g : Guard) (c : Call) → Has entry g → Has entry (apply d g c)
  unfolding apply expire_due
  apply-Has d g (proposing tid p by idem) s = propose-Has d tid by idem g p s
  apply-Has d g (approving tid id by req) s = approve-Has d tid id by g req s
  apply-Has d g (rejecting tid id by reason) s = reject-Has d tid id by g reason s
  apply-Has d g (executing_call tid id by idem) s = execute-Has d tid by idem id g s
  apply-Has d g (verifying_call tid id) s = verify-Has d tid id (record { id = "" }) g s
  apply-Has d g (rolling_back tid id by reason) s = rollback-Has d tid id by g reason s
  apply-Has d g (expiring now) s = s
