-- ===== src/Remediate/Guard/Transitions/Proposals.antt =====
-- guard.go: what `Propose` adds, and what it has checked when it adds it.
use tracing_bot.Prelude.{String, ◌≡◌, refl, ◌⊎◌, inl, inr, false, str_eq, Bool-cases}
use tracing_bot.Prelude.Int.{pos, leb_ℤ}
use tracing_bot.Prelude.Assoc.{put}
use tracing_bot.Remediate.Types.{
  TenantId, ActionTarget, ActionProposal, Action, proposed, Policy, Subject, ok, Result-cases,
}
use tracing_bot.Remediate.Validate.{validate_proposal, check_allowlists}
use tracing_bot.Remediate.Guard.State.{
  Deps, Guard, audit, IdemCheck-cases, proposal, check_idempotency, store_idempotency, budget_used,
  budget_cap, get_policy,
}
use tracing_bot.Remediate.Guard.Propose.{
  stamp, new_action, record_proposal, propose_resolved, resolve_with, propose_fresh, propose,
}

-- What holds of an action that `Propose` opens: the policy was read, the proposal was valid, its
-- resolved target was allowed, and the incident's budget had room.
pub record IsOpened (d : Deps) (g : Guard) (tid : TenantId) (p : ActionProposal) (b : Action)
    : Type 0 where
  pub policy : Policy
  pub read : get_policy d g tid ≡ ok policy
  pub valid : validate_proposal p policy ≡ ok tt
  pub allowed : check_allowlists d.path_match b.proposal policy ≡ ok tt
  pub room : leb_ℤ (budget_cap g policy) (pos (budget_used tid b.incident_id g.actions)) ≡ false
  pub id : b.id ≡ d.action_id g.seq
  pub tenant : b.tenant ≡ tid
  pub incident : b.incident_id ≡ p.incident_id
  pub state : b.state ≡ proposed
  pub type_kept : b.proposal.action_type ≡ p.action_type

module _ (d : Deps) (g : Guard) (tid : TenantId) (by : Subject) (idem : String) where
  record_proposal_after :
      (p : ActionProposal)
      → (record_proposal d g tid p by idem).0.actions
        ≡ put (d.action_id g.seq) (new_action d g tid (stamp d g p by)) g.actions
  unfolding record_proposal audit store_idempotency
  record_proposal_after p = elim (Bool-cases (str_eq idem "")) [ inl e ↦ rw e | inr e ↦ rw e ]

  abbrev pub Opens : ActionProposal → Guard → Type 0
  Opens p g' =
      (g'.actions ≡ g.actions)
      ⊎ ((b : Action) × IsOpened d g tid p b × (g'.actions ≡ put (d.action_id g.seq) b g.actions))

  -- The proposal with its resolved target.
  abbrev at_target : ActionProposal → ActionTarget → ActionProposal
  at_target p t = record p { target = t }

  -- Nothing that `Propose` stamps is read by the allowlists.
  allowed_stamped :
      (p : ActionProposal) (pol : Policy)
      → check_allowlists d.path_match p pol ≡ ok tt
      → check_allowlists d.path_match (stamp d g p by) pol ≡ ok tt
  unfolding check_allowlists
  allowed_stamped p pol h = h

  propose_resolved-Opens :
      (p : ActionProposal) (pol : Policy) (t : ActionTarget)
      → get_policy d g tid ≡ ok pol
      → validate_proposal p pol ≡ ok tt
      → Opens p (propose_resolved d g tid (at_target p t) pol by idem).0
  unfolding propose_resolved audit
  propose_resolved-Opens p pol t q v =
      elim (Result-cases (check_allowlists d.path_match (at_target p t) pol)) [
        | inr (e, c) ↦ inl (rw (c, propose_resolved))
        | inl (u, c) ↦
            elim (Bool-cases
              (leb_ℤ (budget_cap g pol) (pos (budget_used tid p.incident_id g.actions)))) [
                | inl full ↦ inl (rw (c, propose_resolved, full))
                | inr room ↦ inr (
                  new_action d g tid (stamp d g (at_target p t) by),
                  record {
                    policy = pol;
                    read = q;
                    valid = v;
                    allowed = allowed_stamped (at_target p t) pol c;
                    room = room;
                    id = refl;
                    tenant = refl;
                    incident = refl;
                    state = refl;
                    type_kept = refl;
                  },
                  rw (c, propose_resolved, room) (record_proposal_after (at_target p t)),
                )
              ]
      ]

  propose_fresh-Opens : (p : ActionProposal) → Opens p (propose_fresh d g tid p by idem).0
  unfolding propose_fresh audit
  propose_fresh-Opens p = elim (Result-cases (get_policy d g tid)) [
    | inr (e, q) ↦ inl (rw (q, propose_fresh))
    | inl (pol, q) ↦ elim (Result-cases (validate_proposal p pol)) [
      | inr (e, v) ↦ inl (rw (q, propose_fresh, v))
      | inl (u, v) ↦ elim (Result-cases (resolve_with d.resolver tid p.target)) [
        | inr (e, r) ↦ inl (rw (q, propose_fresh, v, r))
        | inl (t, r) ↦ rw (q, propose_fresh, v, r) (propose_resolved-Opens p pol t q v)
      ]
    ]
  ]

  -- `Propose` leaves the actions alone, or opens one action that it has checked.
  pub propose-Opens : (p : ActionProposal) → Opens p (propose d g tid p by idem).0
  unfolding propose
  propose-Opens p = elim (IdemCheck-cases (check_idempotency d g tid "propose" idem (proposal p))) [
    | inl new ↦ rw (new, propose) (propose_fresh-Opens p)
    | inr (inl (a, old)) ↦ inl (rw (old, propose))
    | inr (inr (e, bad)) ↦ inl (rw (bad, propose))
  ]
