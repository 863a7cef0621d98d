-- ===== src/Remediate/Guard/Transitions/Approvals.antt =====
-- guard.go: what `Approve` and `Reject` do to the action that they name.
use tracing_bot.Prelude.{ℕ, String, ◌≡◌, refl, true, arith, ltb, Bool-cases, inl, inr}
use tracing_bot.Prelude.{length}
use tracing_bot.Prelude.Bytes.{utf8}
use tracing_bot.Prelude.Int.{pos, leb_ℤ}
use tracing_bot.Prelude.Assoc.{put-put}
use tracing_bot.Remediate.Types.{TenantId, Action, proposed, state_eq, Subject, Policy, ok}
use tracing_bot.Remediate.Guard.State.{Deps, Guard, sep_of_duty, audit}
use tracing_bot.Remediate.Guard.Approve.{
  ApprovalRequest, overrides_used, approve_commit, approve_override, approve_within,
  approve_proposed, approve_found, reject_found,
}
use tracing_bot.Remediate.Guard.Transitions.{after, Fits}

module _ (d : Deps) (g : Guard) (tid : TenantId) (id : String) (by : Subject) where
  approve_commit-after :
      (k : ℕ) (pol : Policy) (a : Action)
      → let r = approve_commit d k g tid id by pol a in r.0.actions ≡ after id r.1 g.actions
  unfolding approve_commit audit
  approve_commit-after k pol a = refl

  approve_commit-Fits :
      (k : ℕ) (pol : Policy) (a : Action)
      → state_eq a.state proposed ≡ true
      → sep_of_duty d a.proposed_by by.id ≡ ok tt
      → Fits d a (approve_commit d k g tid id by pol a).1
  unfolding approve_commit
  approve_commit-Fits k pol a h s = ground arith

  approve_override-after :
      (req : ApprovalRequest) (pol : Policy) (a : Action)
      → let r = approve_override d g tid id by req pol a in r.0.actions ≡ after id r.1 g.actions
  unfolding approve_override approve_commit audit
  approve_override-after req pol a =
      elim (Bool-cases (ltb (length (utf8 req.override_justification)) 40)) [
        | inl short ↦ rw short
        | inr long ↦
            elim (Bool-cases (
              leb_ℤ g.cfg.max_budget_overrides
                (pos (overrides_used tid a.incident_id g.actions)))) [
                  | inl limit ↦ rw (long, limit)
                  | inr room ↦ rw (long, room) (put-put id _ _ g.actions)
                ]
      ]

  approve_override-Fits :
      (req : ApprovalRequest) (pol : Policy) (a : Action)
      → state_eq a.state proposed ≡ true
      → sep_of_duty d a.proposed_by by.id ≡ ok tt
      → Fits d a (approve_override d g tid id by req pol a).1
  unfolding approve_override approve_commit
  approve_override-Fits req pol a h s = ground arith

  approve_within-after :
      (pol : Policy) (a : Action)
      → let r = approve_within d g tid id by pol a in r.0.actions ≡ after id r.1 g.actions
  unfolding approve_within approve_commit audit
  approve_within-after pol a = ground arith

  approve_within-Fits :
      (pol : Policy) (a : Action)
      → state_eq a.state proposed ≡ true
      → sep_of_duty d a.proposed_by by.id ≡ ok tt
      → Fits d a (approve_within d g tid id by pol a).1
  unfolding approve_within approve_commit
  approve_within-Fits pol a h s = ground arith

  approve_proposed-after :
      (req : ApprovalRequest) (a : Action)
      → let r = approve_proposed d g tid id by req a in r.0.actions ≡ after id r.1 g.actions
  unfolding approve_proposed audit
  approve_proposed-after req a = grind (arith, approve_override-after, approve_within-after)

  approve_proposed-Fits :
      (req : ApprovalRequest) (a : Action)
      → state_eq a.state proposed ≡ true
      → Fits d a (approve_proposed d g tid id by req a).1
  unfolding approve_proposed
  approve_proposed-Fits req a h = grind (arith, approve_override-Fits, approve_within-Fits)

  pub approve_found-after :
      (req : ApprovalRequest) (a : Action)
      → let r = approve_found d g tid id by req a in r.0.actions ≡ after id r.1 g.actions
  unfolding approve_found audit
  approve_found-after req a = ground (arith, approve_proposed-after req a)

  pub approve_found-Fits :
      (req : ApprovalRequest) (a : Action) → Fits d a (approve_found d g tid id by req a).1
  unfolding approve_found
  approve_found-Fits req a = ground (arith, approve_proposed-Fits req a)

  pub reject_found-after :
      (reason : String) (a : Action)
      → let r = reject_found d g tid id by reason a in r.0.actions ≡ after id r.1 g.actions
  unfolding reject_found audit
  reject_found-after reason a = ground arith

  pub reject_found-Fits :
      (reason : String) (a : Action) → Fits d a (reject_found d g tid id by reason a).1
  unfolding reject_found
  reject_found-Fits reason a = ground arith
