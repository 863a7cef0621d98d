-- ===== src/Remediate/Guard/Propose.antt =====
-- guard.go: `Propose`.
use tracing_bot.Prelude.{ℕ, ◌+◌, String, false, Option, none, some, [], ◌∷◌, str_eq, if◌then◌else◌}
use tracing_bot.Prelude.Int.{pos, leb_ℤ}
use tracing_bot.Prelude.Assoc.{put}
use tracing_bot.Remediate.Types.{
  TenantId, ActionTarget, ActionProposal, Action, proposed, no_snapshot, no_result, Policy, Subject,
  target_not_resolvable, budget_exceeded, Result, ok, err,
}
use tracing_bot.Remediate.Validate.{risk_tier, validate_proposal, check_allowlists}
use tracing_bot.Remediate.Guard.State.{
  Deps, Guard, Reply, done, refused, text, number, target, kind, proposal, audit, fresh, hit, clash,
  check_idempotency, store_idempotency, budget_used, budget_cap, get_policy,
}

abbrev tier_or_zero : Option ℕ → ℕ
tier_or_zero none = 0
tier_or_zero (some t) = t

-- The proposal with what `Propose` stamps on it; the proposer's risk tier is dropped.
abbrev pub stamp : Deps → Guard → ActionProposal → Subject → ActionProposal
stamp d g p by = record p {
  risk_tier = tier_or_zero (risk_tier p.action_type);
  proposed_at = d.now 0;
  proposed_by = if str_eq p.proposed_by "" then by.id else p.proposed_by;
  id = d.action_id g.seq;
}

abbrev pub new_action : Deps → Guard → TenantId → ActionProposal → Action
new_action d g tid p = record {
  id = p.id;
  tenant = tid;
  incident_id = p.incident_id;
  investigation_id = p.investigation_id;
  proposal = p;
  state = proposed;
  state_reason = "";
  proposed_by = p.proposed_by;
  approved_by = "";
  approved_at = 0;
  expires_at = 0;
  executor_kind = g.cfg.default_executor;
  pre_snapshot = no_snapshot;
  dry_run_output = [];
  executed_at = 0;
  verify_deadline = 0;
  post_verify = no_result;
  verified = false;
  auto_execute = false;
  budget_index = budget_used tid p.incident_id g.actions + 1;
  override_used = false;
  override_justification = "";
  overridden_by = "";
  overridden_at = 0;
  audit_seqs = [];
  error = "";
  created_at = d.now 0;
  updated_at = d.now 0;
}

-- The tail of `Propose`. The idempotency record is stored under the hash of the stamped proposal.
unfoldable pub record_proposal :
    Deps → Guard → TenantId → ActionProposal → Subject → String → Guard × Reply
record_proposal d g tid p by idem =
    let p' = stamp d g p by in
    let a = new_action d g tid p' in
    let g1 = record g { actions = put a.id a g.actions; seq = g.seq + 1 } in
    let g2 = audit d 1 g1 tid by.id "action_proposed" (
      ("action_id", text a.id)
      ∷ ("type", kind p.action_type)
      ∷ ("risk_tier", number p'.risk_tier)
      ∷ []) in
    (store_idempotency d g2 tid "propose" idem (proposal p') a, done a)

unfoldable pub propose_resolved :
    Deps → Guard → TenantId → ActionProposal → Policy → Subject → String → Guard × Reply
propose_resolved d g tid p pol by idem = elim (check_allowlists d.path_match p pol) [
  | err e ↦ (g, refused e)
  | ok _ ↦
      if leb_ℤ (budget_cap g pol) (pos (budget_used tid p.incident_id g.actions))
      then (
        audit d 0 g tid by.id "propose_refused_budget_exceeded"
            (("incident_id", text p.incident_id) ∷ []),
        refused budget_exceeded,
      )
      else record_proposal d g tid p by idem
]

abbrev pub resolve_with :
    Option (TenantId → ActionTarget → Result ActionTarget)
    → TenantId
    → ActionTarget
    → Result ActionTarget
resolve_with none tid t = ok t
resolve_with (some f) tid t = f tid t

unfoldable pub propose_fresh :
    Deps → Guard → TenantId → ActionProposal → Subject → String → Guard × Reply
propose_fresh d g tid p by idem = elim (get_policy d g tid) [
  | err e ↦ (g, refused e)
  | ok pol ↦ elim (validate_proposal p pol) [
    | err e ↦ (g, refused e)
    | ok _ ↦ elim (resolve_with d.resolver tid p.target) [
      | err e ↦ (
        audit d 0 g tid by.id "propose_refused_target_not_resolvable"
            (("target", target p.target) ∷ []),
        refused target_not_resolvable,
      )
      | ok t ↦ propose_resolved d g tid (record p { target = t }) pol by idem
    ]
  ]
]

unfoldable pub propose : Deps → Guard → TenantId → ActionProposal → Subject → String → Guard × Reply
propose d g tid p by idem = elim (check_idempotency d g tid "propose" idem (proposal p)) [
  | clash e ↦ (g, refused e)
  | hit a ↦ (g, done a)
  | fresh ↦ propose_fresh d g tid p by idem
]
