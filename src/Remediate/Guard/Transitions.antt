-- ===== src/Remediate/Guard/Transitions.antt =====
-- The state machine of an action, and what one call of the Guard may do to the action that it names.
pub mod Approvals
pub mod Executions
pub mod Proposals
pub mod Settlements
use tracing_bot.Prelude.{ℕ, String, ◌≡◌, Bool, true, false, Option, none, some}
use tracing_bot.Prelude.Assoc.{Assoc, lookup, put}
use tracing_bot.Remediate.Types.{
  ActionState, proposed, approved, rejected, executing, verifying, succeeded, failed, rolled_back,
  expired, state_eq, Action, ok,
}
use tracing_bot.Remediate.Guard.State.{Deps, Guard, Reply, done, refused, stopped, sep_of_duty}

-- The transitions from before a call to after it. Executing is left within the call that enters it.
abbrev pub edge : ActionState → ActionState → Bool
edge proposed approved = true
edge proposed rejected = true
edge proposed expired = true
edge approved approved = true
edge approved rejected = true
edge approved expired = true
edge approved failed = true
edge approved verifying = true
edge verifying succeeded = true
edge verifying failed = true
edge verifying rolled_back = true
edge failed failed = true
edge failed rolled_back = true
edge _ _ = false

-- What a call that changes an action keeps of it, and when it sets the approver.
pub record IsStep (d : Deps) (a b : Action) : Type 0 where
  pub tenant : b.tenant ≡ a.tenant
  pub incident : b.incident_id ≡ a.incident_id
  pub proposer : b.proposed_by ≡ a.proposed_by
  pub type_kept : b.proposal.action_type ≡ a.proposal.action_type
  pub tier_kept : b.proposal.risk_tier ≡ a.proposal.risk_tier
  pub edges : edge a.state b.state ≡ true
  pub approval :
      a.state ≡ proposed → b.state ≡ approved → sep_of_duty d b.proposed_by b.approved_by ≡ ok tt
  pub approver_kept : state_eq a.state proposed ≡ false → b.approved_by ≡ a.approved_by

-- The actions after a call that replied about the action `id`.
abbrev pub after : String → Reply → Assoc Action → Assoc Action
after id (done b) m = put id b m
after id (stopped b e) m = put id b m
after id (refused e) m = m

abbrev pub Fits : Deps → Action → Reply → Type 0
Fits d a (done b) = IsStep d a b
Fits d a (stopped b e) = IsStep d a b
Fits d a (refused e) = Unit
