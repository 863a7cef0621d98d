-- ===== src/Remediate/Guard/Runs/TwoPerson.antt =====
-- guard.go: separation of duty over every run.
use tracing_bot.Prelude.{
  String, ◌≡◌, ◌≢◌, refl, sym, ap, subst, ◌∙◌, inl, inr, Bool, true, false, Option, none, some,
  eq_iff, arith, Bool-cases,
}
use tracing_bot.Prelude.Assoc.{lookup}
use tracing_bot.Remediate.Types.{ActionState, Action, proposed, rejected, expired, ok, Result}
use tracing_bot.Remediate.Guard.State.{Deps, Guard, GuardConfig, new_guard, sep_of_duty, separate}
use tracing_bot.Remediate.Guard.Transitions.{IsStep}
use tracing_bot.Remediate.Guard.Runs.{apply, Reach, here, next, apply-Change}
use tracing_bot.Remediate.Guard.Runs.StateMachine.{Change-origin}

-- The configured `Authorizer`, where there is one, refuses a subject as its own approver.
abbrev pub HasSeparation : Deps → Guard → Type 0
HasSeparation d g =
    (f : String → String → Result (Unit {0})) (s : String) → d.authz ≡ some f → f s s ≢ ok tt

-- The states that an action reaches only through an approval.
abbrev pub is_cleared : ActionState → Bool
is_cleared proposed = false
is_cleared rejected = false
is_cleared expired = false
is_cleared _ = true

separate_self :
    (o : Option (String → String → Result (Unit {0}))) (s : String)
    → ((f : String → String → Result (Unit {0})) → o ≡ some f → f s s ≢ ok tt)
    → separate o s s ≢ ok tt
separate_self none s h e = ground (arith, eq_iff s s)
separate_self (some f) s h e = h f refl e

-- A granted approval is by another subject than the proposer.
sep_of_duty_ne :
    (d : Deps) (g : Guard) (s t : String) → HasSeparation d g → sep_of_duty d s t ≡ ok tt → s ≢ t
unfolding sep_of_duty
sep_of_duty_ne d g s t h e same =
    separate_self d.authz t (λ f. h f t) (subst (λ x. separate d.authz x t ≡ ok tt) same e)

cleared-step :
    (d : Deps) (g : Guard) (a b : Action)
    → HasSeparation d g
    → IsStep d a b
    → (is_cleared a.state ≡ true → a.proposed_by ≢ a.approved_by)
    → is_cleared b.state ≡ true
    → b.proposed_by ≢ b.approved_by
cleared-step d g a b h s old c = elim (Bool-cases (is_cleared a.state)) [
  | inl was ↦ let kept = s.approver_kept (ground arith) in λ e. old was (cc (kept, s.proposer))
  | inr was_not ↦
      sep_of_duty_ne d g b.proposed_by b.approved_by h
        (s.approval (ground (arith, s.edges)) (ground (arith, s.edges)))
]

-- If no configured `Authorizer` accepts a subject as its own approver, then after any calls every
-- action that is neither proposed, rejected nor expired was approved by another subject than its
-- proposer.
pub approver-ne-proposer :
    (cfg : GuardConfig) (g : Guard) (id : String) (a : Action)
    → Reach HasSeparation (new_guard cfg) g
    → lookup id g.actions ≡ some a
    → is_cleared a.state ≡ true
    → a.proposed_by ≢ a.approved_by
unfolding new_guard lookup
approver-ne-proposer cfg g id a here l c = cc
approver-ne-proposer cfg g id a (next {h} r d call p) l c =
    elim (Change-origin d h (apply d h call).actions id a l (apply-Change d h call)) [
      | inl new ↦ cc (new)
      | inr (x, was, inl same) ↦ approver-ne-proposer cfg h id a r (was ∙ ap some (sym same)) c
      | inr (x, was, inr s) ↦ cleared-step d h x a p s (approver-ne-proposer cfg h id x r was) c
    ]
