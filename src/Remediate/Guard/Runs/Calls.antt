-- ===== src/Remediate/Guard/Runs/Calls.antt =====
-- guard.go: the requests that executors have received, over every run.
use tracing_bot.Prelude.{String, ◌≡◌, ◌≢◌, sym, ◌∙◌, inl, inr, List, arith, All}
use tracing_bot.Remediate.Types.{TenantId, ActionProposal, Action, Subject, Request}
use tracing_bot.Remediate.Guard.State.{
  Deps, Guard, GuardConfig, new_guard, audit, store_idempotency,
}
use tracing_bot.Remediate.Guard.Propose.{propose, propose_fresh, propose_resolved, record_proposal}
use tracing_bot.Remediate.Guard.Approve.{
  ApprovalRequest, approve, approve_found, approve_proposed, approve_override, approve_within,
  approve_commit, reject, reject_found,
}
use tracing_bot.Remediate.Guard.Settle.{
  verify, verify_found, rollback, rollback_found, rollback_live, roll_back_now,
}
use tracing_bot.Remediate.Guard.Queries.{expire_due}
use tracing_bot.Remediate.Guard.Runs.{
  proposing, approving, rejecting, executing_call, verifying_call, rolling_back, expiring, apply,
  Reach, here, next,
}
use tracing_bot.Remediate.Guard.Runs.TwoPerson.{HasSeparation, approver-ne-proposer}
use tracing_bot.Remediate.Guard.Runs.Dispatch.{Dispatches, execute-Dispatches}

module _ (d : Deps) (g : Guard) (tid : TenantId) where
  calls-record_proposal :
      (p : ActionProposal) (by : Subject) (idem : String)
      → (record_proposal d g tid p by idem).0.calls ≡ g.calls
  unfolding record_proposal store_idempotency audit
  calls-record_proposal p by idem = ground arith

  calls-propose :
      (p : ActionProposal) (by : Subject) (idem : String)
      → (propose d g tid p by idem).0.calls ≡ g.calls
  unfolding propose propose_fresh propose_resolved audit
  calls-propose p by idem = grind (arith, calls-record_proposal)

module _ (d : Deps) (g : Guard) (tid : TenantId) (id : String) where
  calls-approve :
      (by : Subject) (req : ApprovalRequest) → (approve d g tid id by req).0.calls ≡ g.calls
  unfolding approve approve_found approve_proposed approve_override approve_within approve_commit
      audit
  calls-approve by req = grind arith

  calls-reject : (by : Subject) (reason : String) → (reject d g tid id by reason).0.calls ≡ g.calls
  unfolding reject reject_found audit
  calls-reject by reason = grind arith

  calls-verify : (verify d g tid id).0.calls ≡ g.calls
  unfolding verify verify_found audit
  calls-verify = grind arith

  calls-rollback :
      (by : Subject) (reason : String) → (rollback d g tid id by reason).0.calls ≡ g.calls
  unfolding rollback rollback_found rollback_live roll_back_now audit
  calls-rollback by reason = grind arith

-- What is said of every request that an executor has received.
abbrev pub TwoPerson : Action × Request → Type 0
TwoPerson c = c.0.proposed_by ≢ c.0.approved_by

dispatch-TwoPerson :
    (cfg : GuardConfig) (d : Deps) (g : Guard) (tid : TenantId) (id : String) (by : Subject)
    (idem : String) (l : List (Action × Request))
    → Reach HasSeparation (new_guard cfg) g
    → All TwoPerson g.calls
    → Dispatches d tid id by idem g l
    → All TwoPerson l
dispatch-TwoPerson cfg d g tid id by idem l r h (inl e) = rw e h
dispatch-TwoPerson cfg d g tid id by idem l r h (inr (a, x, q, auth, e)) =
    let two = approver-ne-proposer cfg g id a r auth.found (ground (arith, auth.state)) in
    rw e ((λ same. two (sym auth.follows.proposer ∙ same ∙ auth.follows.approver)), h)

-- If no configured `Authorizer` accepts a subject as its own approver, then after any calls every
-- request that an executor has received was for an action approved by another subject than its
-- proposer.
pub calls-TwoPerson :
    (cfg : GuardConfig) (g : Guard) → Reach HasSeparation (new_guard cfg) g → All TwoPerson g.calls
unfolding new_guard apply expire_due
calls-TwoPerson cfg g here = tt
calls-TwoPerson cfg g (next {h} r d (proposing tid p by idem) s) =
    rw (calls-propose d h tid p by idem) (calls-TwoPerson cfg h r)
calls-TwoPerson cfg g (next {h} r d (approving tid id by req) s) =
    rw (calls-approve d h tid id by req) (calls-TwoPerson cfg h r)
calls-TwoPerson cfg g (next {h} r d (rejecting tid id by reason) s) =
    rw (calls-reject d h tid id by reason) (calls-TwoPerson cfg h r)
calls-TwoPerson cfg g (next {h} r d (executing_call tid id by idem) s) =
    dispatch-TwoPerson cfg d h tid id by idem _ r (calls-TwoPerson cfg h r)
      (execute-Dispatches d tid id by idem h)
calls-TwoPerson cfg g (next {h} r d (verifying_call tid id) s) =
    rw (calls-verify d h tid id) (calls-TwoPerson cfg h r)
calls-TwoPerson cfg g (next {h} r d (rolling_back tid id by reason) s) =
    rw (calls-rollback d h tid id by reason) (calls-TwoPerson cfg h r)
calls-TwoPerson cfg g (next {h} r d (expiring now) s) = calls-TwoPerson cfg h r
