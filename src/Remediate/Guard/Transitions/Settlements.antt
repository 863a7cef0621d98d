-- ===== src/Remediate/Guard/Transitions/Settlements.antt =====
-- guard.go: what `Verify` and `Rollback` do to the action that they name.
use tracing_bot.Prelude.{String, ◌≡◌, true, arith, ◌||◌, ◌⊎◌, inl, inr, Bool-cases}
use tracing_bot.Prelude.Assoc.{put}
use tracing_bot.Remediate.Types.{
  TenantId, Action, verifying, failed, state_eq, Subject, VerifyResult,
}
use tracing_bot.Remediate.Guard.State.{Deps, Guard, audit}
use tracing_bot.Remediate.Guard.Settle.{
  settle, verify_found, verify_result, roll_back_now, rollback_live, rollback_found,
}
use tracing_bot.Remediate.Guard.Transitions.{IsStep, after, Fits}

module _ (d : Deps) (g : Guard) (tid : TenantId) (id : String) where
  settle-IsStep :
      (a : Action) (res : VerifyResult)
      → state_eq a.state verifying ≡ true
      → IsStep d a (settle d a res)
  settle-IsStep a res h = ground arith

  -- `Verify` refuses, or stores one step of the action.
  pub verify_found-after :
      (a : Action)
      → ((verify_found d g tid id a).0.actions ≡ g.actions)
        ⊎ ((b : Action) × ((verify_found d g tid id a).0.actions ≡ put id b g.actions)
            × IsStep d a b)
  unfolding verify_found audit
  verify_found-after a = elim (Bool-cases (state_eq a.state verifying)) [
    | inl h ↦ let res = verify_result d tid a in inr (settle d a res, rw h, settle-IsStep a res h)
    | inr h ↦ inl (rw h)
  ]

  module _ (by : Subject) (reason : String) where
    rollback_live-after :
        (a : Action)
        → let r = rollback_live d g tid id by reason a in r.0.actions ≡ after id r.1 g.actions
    unfolding rollback_live roll_back_now audit
    rollback_live-after a = grind arith

    rollback_live-Fits :
        (a : Action)
        → state_eq a.state verifying || state_eq a.state failed ≡ true
        → Fits d a (rollback_live d g tid id by reason a).1
    unfolding rollback_live roll_back_now
    rollback_live-Fits a h = grind arith

    pub rollback_found-after :
        (a : Action)
        → let r = rollback_found d g tid id by reason a in r.0.actions ≡ after id r.1 g.actions
    unfolding rollback_found
    rollback_found-after a = ground (arith, rollback_live-after a)

    pub rollback_found-Fits : (a : Action) → Fits d a (rollback_found d g tid id by reason a).1
    unfolding rollback_found
    rollback_found-Fits a = ground (arith, rollback_live-Fits a)
