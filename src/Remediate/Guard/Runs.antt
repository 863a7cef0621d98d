-- ===== src/Remediate/Guard/Runs.antt =====
-- Runs of the Guard: any calls, in any order, each with collaborators of its own.
pub mod Budget
pub mod StateMachine
pub mod TwoPerson
pub mod Sends
pub mod Dispatch
pub mod Calls
use tracing_bot.Prelude.{
  ℕ, String, ◌≡◌, refl, ◌⊎◌, inl, inr, Bool, true, false, Option, none, some, str_eq, eq_iff, arith,
  Bool-cases, Option-cases, if◌then◌else◌,
}
use tracing_bot.Prelude.Assoc.{Assoc, lookup, put}
use tracing_bot.Remediate.Types.{
  Time, TenantId, ActionProposal, Action, Subject, ok, err, Result-cases,
}
use tracing_bot.Remediate.Guard.State.{
  Deps, Guard, Reply, done, refused, stopped, get, check_idempotency, action_ref, IdemCheck-cases,
}
use tracing_bot.Remediate.Guard.Propose.{propose}
use tracing_bot.Remediate.Guard.Approve.{ApprovalRequest, approve, reject}
use tracing_bot.Remediate.Guard.Execute.{execute, execute_fresh}
use tracing_bot.Remediate.Guard.Settle.{verify, rollback}
use tracing_bot.Remediate.Guard.Queries.{expire_due, expire_all}
use tracing_bot.Remediate.Guard.Transitions.{IsStep, after, Fits}
use tracing_bot.Remediate.Guard.Transitions.Approvals.{
  approve_found-after, approve_found-Fits, reject_found-after, reject_found-Fits,
}
use tracing_bot.Remediate.Guard.Transitions.Executions.{execute_fresh-after, execute_fresh-Fits}
use tracing_bot.Remediate.Guard.Transitions.Settlements.{
  verify_found-after, rollback_found-after, rollback_found-Fits,
}
use tracing_bot.Remediate.Guard.Transitions.Proposals.{IsOpened, propose-Opens}

-- The methods that change the Guard.
pub data Call : Type 0 where
  proposing : TenantId → ActionProposal → Subject → String → Call
  approving : TenantId → String → Subject → ApprovalRequest → Call
  rejecting : TenantId → String → Subject → String → Call
  executing_call : TenantId → String → Subject → String → Call
  verifying_call : TenantId → String → Call
  rolling_back : TenantId → String → Subject → String → Call
  expiring : Time → Call

unfoldable pub apply : Deps → Guard → Call → Guard
apply d g (proposing tid p by idem) = (propose d g tid p by idem).0
apply d g (approving tid id by req) = (approve d g tid id by req).0
apply d g (rejecting tid id by reason) = (reject d g tid id by reason).0
apply d g (executing_call tid id by idem) = (execute d g tid id by idem).0
apply d g (verifying_call tid id) = (verify d g tid id).0
apply d g (rolling_back tid id by reason) = (rollback d g tid id by reason).0
apply d g (expiring now) = (expire_due g now).0

-- The guards that calls lead to from `g`, where `P` holds of each call's collaborators and guard.
pub data Reach (P : Deps → Guard → Type 0) (g : Guard) : Guard → Type 0 where
  here : Reach P g g
  next : {h : Guard} → Reach P g h → (d : Deps) (c : Call) → P d h → Reach P g (apply d h c)

-- What a call does to the actions.
pub data Change (d : Deps) (g : Guard) (m : Assoc Action) : Type 0 where
  kept : m ≡ g.actions → Change d g m
  moved :
      (id : String) (a b : Action)
      → lookup id g.actions ≡ some a
      → IsStep d a b
      → m ≡ put id b g.actions
      → Change d g m
  opened :
      (tid : TenantId) (p : ActionProposal) (b : Action)
      → IsOpened d g tid p b
      → m ≡ put (d.action_id g.seq) b g.actions
      → Change d g m
  swept : (now : Time) → m ≡ expire_all g.cfg now g.actions → Change d g m

pub get-eq-ok :
    (g : Guard) (tid : TenantId) (id : String) {a : Action}
    → get g tid id ≡ ok a
    → (lookup id g.actions ≡ some a) × (a.tenant ≡ tid)
unfolding get
get-eq-ok g tid id {a} h = ground (arith, eq_iff a.tenant tid)

reply-Change :
    (d : Deps) (g : Guard) (id : String) (a : Action) (r : Reply) (m : Assoc Action)
    → lookup id g.actions ≡ some a
    → m ≡ after id r g.actions
    → Fits d a r
    → Change d g m
reply-Change d g id a (done b) m l e f = moved id a b l f e
reply-Change d g id a (stopped b x) m l e f = moved id a b l f e
reply-Change d g id a (refused x) m l e f = kept e

-- Every method makes one change.
pub apply-Change : (d : Deps) (g : Guard) (c : Call) → Change d g (apply d g c).actions
unfolding apply propose approve reject execute verify rollback expire_due
apply-Change d g (proposing tid p by idem) = elim (propose-Opens d g tid by idem p) [
  | inl same ↦ kept same
  | inr (b, is_open, e) ↦ opened tid p b is_open e
]
apply-Change d g (approving tid id by req) = elim (Result-cases (get g tid id)) [
  | inr (x, e) ↦ kept (rw (e, apply, approve))
  | inl (a, e) ↦
      rw (e, apply, approve)
        (reply-Change d g id a _ _ (get-eq-ok g tid id e).0
          (approve_found-after d g tid id by req a) (approve_found-Fits d g tid id by req a))
]
apply-Change d g (rejecting tid id by reason) = elim (Result-cases (get g tid id)) [
  | inr (x, e) ↦ kept (rw (e, apply, reject))
  | inl (a, e) ↦
      rw (e, apply, reject)
        (reply-Change d g id a _ _ (get-eq-ok g tid id e).0
          (reject_found-after d g tid id by reason a) (reject_found-Fits d g tid id by reason a))
]
apply-Change d g (executing_call tid id by idem) = elim (Result-cases (get g tid id)) [
  | inr (x, e) ↦ kept (rw (e, apply, execute))
  | inl (a, e) ↦ elim (IdemCheck-cases (check_idempotency d g tid "execute" idem (action_ref id))) [
    | inr (inl (c, i)) ↦ kept (rw (e, apply, execute, i))
    | inr (inr (x, i)) ↦ kept (rw (e, apply, execute, i))
    | inl i ↦
        rw (e, apply, execute, i)
          (reply-Change d g id a _ _ (get-eq-ok g tid id e).0
            (execute_fresh-after d tid id by idem g a) (execute_fresh-Fits d tid id by idem g a))
  ]
]
apply-Change d g (verifying_call tid id) = elim (Result-cases (get g tid id)) [
  | inr (x, e) ↦ kept (rw (e, apply, verify))
  | inl (a, e) ↦
      rw (e, apply, verify)
        (elim (verify_found-after d g tid id a) [
          | inl same ↦ kept same
          | inr (b, m, s) ↦ moved id a b (get-eq-ok g tid id e).0 s m
        ])
]
apply-Change d g (rolling_back tid id by reason) = elim (Result-cases (get g tid id)) [
  | inr (x, e) ↦ kept (rw (e, apply, rollback))
  | inl (a, e) ↦
      rw (e, apply, rollback)
        (reply-Change d g id a _ _ (get-eq-ok g tid id e).0
          (rollback_found-after d g tid id by reason a)
          (rollback_found-Fits d g tid id by reason a))
]
apply-Change d g (expiring now) = swept now refl
