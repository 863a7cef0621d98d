-- ===== src/Remediate/Guard/Approve.antt =====
-- guard.go: `Approve` and `Reject`.
use tracing_bot.Prelude.{length}
use tracing_bot.Prelude.Bytes.{utf8}
use tracing_bot.Prelude.{
  ℕ, suc, ◌+◌, String, Bool, true, false, ◌&&◌, not, [], ◌∷◌, str_eq, ltb, leb, ◌==◌, if◌then◌else◌,
}
use tracing_bot.Prelude.Int.{pos, leb_ℤ, ltb_ℤ}
use tracing_bot.Prelude.Assoc.{Assoc}
use tracing_bot.Remediate.Types.{
  TenantId, Action, proposed, approved, rejected, expired, state_eq, Policy, Subject,
  action_expired, illegal_transition, approver_must_differ, override_justification_too_short,
  override_limit, budget_exceeded, ok, err,
}
use tracing_bot.Remediate.Guard.State.{
  Deps, Guard, Reply, done, refused, stopped, text, moment, audit, set, get, budget_used,
  budget_cap, get_policy, sep_of_duty,
}

pub record ApprovalRequest : Type 0 where
  pub comment : String
  pub override_justification : String
  pub request_budget_override : Bool

-- The overrides that an incident has used.
unfoldable pub overrides_used : TenantId → String → Assoc Action → ℕ
overrides_used tid incident_id [] = 0
overrides_used tid incident_id ((k, x) ∷ rest) =
    let n = overrides_used tid incident_id rest in
    if str_eq x.tenant tid && str_eq x.incident_id incident_id && x.override_used then suc n else n

-- `auto_execute_on_approve`, which risk tier 3 forbids.
abbrev pub auto_execute : Guard → Policy → Action → Bool
auto_execute g pol a =
    if a.proposal.risk_tier == 3
    then false
    else g.cfg.auto_execute_on_approve && pol.auto_execute_allowed

-- The tail of `Approve`; `k` is the number of clock readings made before it.
unfoldable pub approve_commit :
    Deps → ℕ → Guard → TenantId → String → Subject → Policy → Action → Guard × Reply
approve_commit d k g tid id by pol a =
    let a' = record a {
      state = approved;
      approved_by = by.id;
      approved_at = d.now 0;
      expires_at = d.now 0 + g.cfg.approval_ttl;
      auto_execute = auto_execute g pol a;
      updated_at = d.now 0;
    } in
    (
      audit d k (set g id a') tid by.id "action_approved"
          (("action_id", text id) ∷ ("expires_at", moment a'.expires_at) ∷ []),
      done a',
    )

unfoldable pub approve_override :
    Deps → Guard → TenantId → String → Subject → ApprovalRequest → Policy → Action → Guard × Reply
approve_override d g tid id by req pol a =
    if ltb (length (utf8 req.override_justification)) 40
    then (g, refused override_justification_too_short)
    else if leb_ℤ g.cfg.max_budget_overrides (pos (overrides_used tid a.incident_id g.actions))
    then (g, refused override_limit)
    else let a' = record a {
      override_used = true;
      override_justification = req.override_justification;
      overridden_by = by.id;
      overridden_at = d.now 0;
    } in
      let g' =
        audit d 1 (set g id a') tid by.id "budget_override"
          (("action_id", text id) ∷ ("incident_id", text a.incident_id) ∷ []) in
      approve_commit d 2 g' tid id by pol a'

unfoldable pub approve_within :
    Deps → Guard → TenantId → String → Subject → Policy → Action → Guard × Reply
approve_within d g tid id by pol a =
    if ltb_ℤ (budget_cap g pol) (pos (budget_used tid a.incident_id g.actions))
    then (let a' = record a {
      state = rejected;
      state_reason = "budget_exceeded";
      updated_at = d.now 0;
    } in
        (
          audit d 1 (set g id a') tid by.id "approve_refused_budget_exceeded"
              (("action_id", text id) ∷ ("incident_id", text a.incident_id) ∷ []),
          stopped a' budget_exceeded,
        ))
    else approve_commit d 1 g tid id by pol a

unfoldable pub approve_proposed :
    Deps → Guard → TenantId → String → Subject → ApprovalRequest → Action → Guard × Reply
approve_proposed d g tid id by req a = elim (sep_of_duty d a.proposed_by by.id) [
  | err e ↦ (
    audit d 1 g tid by.id "approve_refused_approver_must_differ" (("action_id", text id) ∷ []),
    refused approver_must_differ,
  )
  | ok _ ↦ elim (get_policy d g tid) [
    | err e ↦ (g, refused e)
    | ok pol ↦
        if req.request_budget_override
        then approve_override d g tid id by req pol a
        else approve_within d g tid id by pol a
  ]
]

unfoldable pub approve_found :
    Deps → Guard → TenantId → String → Subject → ApprovalRequest → Action → Guard × Reply
approve_found d g tid id by req a =
    if state_eq a.state proposed && leb (a.created_at + g.cfg.proposal_ttl) (d.now 0)
    then (let a' = record a { state = expired; updated_at = d.now 0 } in
        (
          audit d 1 (set g id a') tid by.id "action_expired_proposal_ttl"
              (("action_id", text id) ∷ []),
          stopped a' action_expired,
        ))
    else if not (state_eq a.state proposed)
    then (g, refused illegal_transition)
    else approve_proposed d g tid id by req a

unfoldable pub approve :
    Deps → Guard → TenantId → String → Subject → ApprovalRequest → Guard × Reply
approve d g tid id by req = elim (get g tid id) [
  | err e ↦ (g, refused e)
  | ok a ↦ approve_found d g tid id by req a
]

unfoldable pub reject_found :
    Deps → Guard → TenantId → String → Subject → String → Action → Guard × Reply
reject_found d g tid id by reason a =
    if not (state_eq a.state proposed) && not (state_eq a.state approved)
    then (g, refused illegal_transition)
    else let a' = record a { state = rejected; state_reason = reason; updated_at = d.now 0 } in
      (
        audit d 1 (set g id a') tid by.id "action_rejected"
            (("action_id", text id) ∷ ("reason", text reason) ∷ []),
        done a',
      )

unfoldable pub reject : Deps → Guard → TenantId → String → Subject → String → Guard × Reply
reject d g tid id by reason = elim (get g tid id) [
  | err e ↦ (g, refused e)
  | ok a ↦ reject_found d g tid id by reason a
]
