-- ===== src/Remediate/Guard/Trail.antt =====
-- guard.go: what the audit log tells of approvals, over every run.
pub mod Kept
pub mod Tame
pub mod Approvals
use mathlib.Core.List.{Memᴰ, ◌++◌}
use mathlib.Core.List.Memᴰ
use tracing_bot.Prelude.{
  ℕ, ◌+◌, ◌≡◌, ◌≢◌, refl, ap, ◌∙◌, Bool, Option, none, List, [], ◌∷◌, str_eq, if◌then◌else◌, eq_iff,
  Option-cases, some_inj, not, ◌&&◌, ◌||◌,
}
use tracing_bot.Prelude.Bytes.{Bytes}
use tracing_bot.Prelude.Assoc.{Assoc, put, lookup-put, lookup-map_values}
use tracing_bot.Remediate.Types.{
  Time, Duration, TenantId, ActionType, rollback_deployment, scale_replicas, restart_pod,
  toggle_feature_flag, remove_istio_fault, other, type_eq, TargetKind, deployment, stateful_set,
  pod, config_map, virtual_service, other_kind, ActionTarget, RollbackDeploymentSpec,
  ScaleReplicasSpec, RestartPodSpec, ToggleFeatureFlagSpec, RemoveIstioFaultSpec,
  remove_istio_fault_spec, ActionProposal, approved, rejected, executing, verifying, succeeded,
  failed, rolled_back, expired, Snapshot, no_snapshot, VerifyResult, no_result, Policy, Subject,
  Error, invalid_proposal, target_not_resolvable, target_replaced, approver_must_differ,
  action_expired, budget_exceeded, override_limit, override_justification_too_short,
  illegal_transition, not_found, payload_out_of_scope, nothing_to_remove, forbidden_flag,
  idempotency_key_reused, idempotency_key_required, auto_execute_forbidden, unknown_executor,
  needs_context, snapshot_failed, rollback_refused_concurrent_modification, upstream, Result, ok,
  err, Result-cases, OnOk, OnOk-intro, ◌>>◌, refuse_if, Verb, verb_get, verb_scale,
  verb_rollout_undo, verb_delete_pod, verb_patch, Request,
}
use tracing_bot.Remediate.Audit.{append, AuditLog, StoredEvent}
use tracing_bot.Remediate.Guard.State.{
  Detail, text, number, flag, moment, target, kind, ApiRequest, proposal, action_ref,
  RecoverySignal, Deps, minute, with_defaults, IdemRecord, Guard, Reply, done, refused, stopped,
  audit, set, idem_key, IdemCheck, fresh, hit, clash, IdemCheck-cases, match_record,
  check_idempotency, store_idempotency, counts, budget_used, budget_cap, default_policy, get_policy,
  get, separate, sep_of_duty,
}
use tracing_bot.Remediate.Guard.Propose.{propose}
use tracing_bot.Remediate.Guard.Approve.{
  ApprovalRequest, overrides_used, auto_execute, approve_commit, approve_override, approve_within,
  approve_proposed, approve_found, approve, reject_found, reject,
}
use tracing_bot.Remediate.Guard.Execute.{execute, execute_fresh}
use tracing_bot.Remediate.Guard.Settle.{
  settle, verify_result, verify, verify_found, rollback, rollback_found,
}
use tracing_bot.Remediate.Guard.Queries.{expire_all, expire_action}
use tracing_bot.Remediate.Guard.Transitions.{after, Fits}
use tracing_bot.Remediate.Guard.Transitions.Approvals.{
  approve_found-after, approve_found-Fits, reject_found-after,
}
use tracing_bot.Remediate.Guard.Transitions.Executions.{execute_fresh-after}
use tracing_bot.Remediate.Guard.Transitions.Proposals.{propose-Opens}
use tracing_bot.Remediate.Guard.Transitions.Settlements.{verify_found-after, rollback_found-after}
use tracing_bot.Remediate.Guard.Runs.Budget.{expire_all-map_values}
use tracing_bot.Remediate.Guard.Runs.{get-eq-ok}
use tracing_bot.Remediate.Guard.Trail.Tame.{IsTame}
use tracing_bot.Remediate.Guard.Trail.Approvals.{Marshal}

-- The collaborators encode an audit entry's payload by `f`.
abbrev pub MarshalsBy : Marshal → Deps → Guard → Type 0
MarshalsBy f d g = d.marshal ≡ f
