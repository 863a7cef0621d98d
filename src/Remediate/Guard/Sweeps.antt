-- ===== src/Remediate/Guard/Sweeps.antt =====
-- guard.go: `ExpireDue` and `Stats` together.
use tracing_bot.Prelude.{◌+◌, ◌≡◌, refl, false, [], ◌∷◌, arith}
use tracing_bot.Prelude.Assoc.{Assoc}
use tracing_bot.Remediate.Types.{Time, Action, ActionState, proposed, approved, expired, state_eq}
use tracing_bot.Remediate.Guard.State.{Guard, GuardConfig}
use tracing_bot.Remediate.Guard.Queries.{expire_action, expire_all, count_due, expire_due, stats}

module _ (cfg : GuardConfig) (now : Time) where
  expired-expire_all :
      (m : Assoc Action)
      → stats expired (expire_all cfg now m) ≡ stats expired m + count_due cfg now m
  unfolding stats expire_all count_due expire_action
  expired-expire_all [] = omega arith
  expired-expire_all ((k, a) ∷ rest) = ground (arith, expired-expire_all rest)

  open-expire_all :
      (m : Assoc Action)
      → stats proposed (expire_all cfg now m)
          + stats approved (expire_all cfg now m)
          + count_due cfg now m
        ≡ stats proposed m + stats approved m
  unfolding stats expire_all count_due expire_action
  open-expire_all [] = omega arith
  open-expire_all ((k, a) ∷ rest) = ground (arith, open-expire_all rest)

  other-expire_all :
      (s : ActionState) (m : Assoc Action)
      → state_eq s proposed ≡ false
      → state_eq s approved ≡ false
      → state_eq s expired ≡ false
      → stats s (expire_all cfg now m) ≡ stats s m
  unfolding stats expire_all expire_action
  other-expire_all s [] p q r = refl
  other-expire_all s ((k, a) ∷ rest) p q r = ground (arith, other-expire_all s rest p q r)

  due-expire_all : (m : Assoc Action) → count_due cfg now (expire_all cfg now m) ≡ 0
  unfolding count_due expire_all expire_action
  due-expire_all [] = refl
  due-expire_all ((k, a) ∷ rest) = ground (arith, due-expire_all rest)

-- `ExpireDue` reports by how many the expired actions grow and by how many the proposed and the approved
-- ones together shrink, leaves the count of any other state, and a second call at the same time
-- reports none.
pub stats-expire_due :
    (g : Guard) (now : Time) (s : ActionState)
    → state_eq s proposed ≡ false
    → state_eq s approved ≡ false
    → state_eq s expired ≡ false
    → let (h, n) = expire_due g now in
      (stats expired h.actions ≡ stats expired g.actions + n)
      × (stats proposed h.actions + stats approved h.actions + n
          ≡ stats proposed g.actions + stats approved g.actions)
      × (stats s h.actions ≡ stats s g.actions)
      × ((expire_due h now).1 ≡ 0)
unfolding expire_due
stats-expire_due g now s p q r = (
  expired-expire_all g.cfg now g.actions,
  open-expire_all g.cfg now g.actions,
  other-expire_all g.cfg now s g.actions p q r,
  due-expire_all g.cfg now g.actions,
)
