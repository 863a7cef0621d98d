-- ===== src/Remediate/Guard/Execute.antt =====
-- guard.go: `Execute`, in the order of its checks.
use tracing_bot.Prelude.{
  ℕ, ◌+◌, String, Bool, ◌&&◌, not, none, some, [], ◌∷◌, str_eq, leb, if◌then◌else◌,
}
use tracing_bot.Prelude.Bytes.{Bytes}
use tracing_bot.Remediate.Types.{
  Time, TenantId, ActionTarget, Action, approved, executing, verifying, failed, expired, state_eq,
  Subject, Error, invalid_proposal, target_not_resolvable, target_replaced, approver_must_differ,
  action_expired, budget_exceeded, override_limit, override_justification_too_short,
  illegal_transition, not_found, payload_out_of_scope, nothing_to_remove, forbidden_flag,
  idempotency_key_reused, idempotency_key_required, auto_execute_forbidden, unknown_executor,
  needs_context, snapshot_failed, rollback_refused_concurrent_modification, upstream, Result, ok,
  err, Verb, Request,
}
use tracing_bot.Remediate.Validate.{check_allowlists}
use tracing_bot.Remediate.Executor.{verb_for_action, stdin_payload, check_payload_scope}
use tracing_bot.Remediate.Guard.State.{
  Deps, Guard, Reply, done, refused, stopped, text, action_ref, audit, set, get, get_policy, fresh,
  hit, clash, check_idempotency, store_idempotency,
}

-- `err.Error()`, without the details that a wrapping adds behind a sentinel's text.
unfoldable pub message : Error → String
message invalid_proposal = "remediate: invalid_proposal"
message target_not_resolvable = "remediate: target_not_resolvable"
message target_replaced = "remediate: target_replaced"
message approver_must_differ = "remediate: approver_must_differ"
message action_expired = "remediate: action_expired"
message budget_exceeded = "remediate: budget_exceeded"
message override_limit = "remediate: override_limit"
message override_justification_too_short = "remediate: override_justification_too_short"
message illegal_transition = "remediate: illegal_transition"
message not_found = "remediate: not_found"
message payload_out_of_scope = "remediate: payload_out_of_scope"
message nothing_to_remove = "remediate: nothing_to_remove"
message forbidden_flag = "remediate: forbidden_flag"
message idempotency_key_reused = "remediate: idempotency_key_reused"
message idempotency_key_required = "remediate: idempotency_key_required"
message auto_execute_forbidden = "remediate: auto_execute_forbidden_risk_tier_3"
message unknown_executor = "remediate: unknown_executor"
message needs_context = "NEEDS_CONTEXT"
message snapshot_failed = "remediate: snapshot_failed"
message rollback_refused_concurrent_modification =
    "remediate: rollback_refused_concurrent_modification"
message (upstream s) = s

-- The exits that fail the action at the time `at` and audit it, with `k` clock readings before.
abbrev pub fail_at :
    Deps
    → ℕ
    → Time
    → Guard
    → TenantId
    → String
    → Subject
    → Action
    → String
    → String
    → Error
    → Guard × Reply
fail_at d k at g tid id by a reason event e =
    let a' = record a { state = failed; state_reason = reason; updated_at = at } in
    (audit d k (set g id a') tid by.id event (("action_id", text id) ∷ []), stopped a' e)

-- The exits that fail the action with no audit entry.
abbrev pub fail_silently : Deps → ℕ → Guard → String → Action → String → Error → Guard × Reply
fail_silently d k g id a reason e =
    let a' = record a { state = failed; state_reason = reason; updated_at = d.now k } in
    (set g id a', stopped a' e)

abbrev pub to_request : Action → Verb → Bytes → Request
to_request a verb stdin = record {
  verb = verb;
  namespace = a.proposal.target.namespace;
  kind = a.proposal.target.kind;
  name = a.proposal.target.name;
  stdin_json = stdin;
  dry_run = str_eq a.executor_kind "dryrun";
  timeout = 0;
}

-- The executor has answered.
unfoldable pub execute_answer :
    Deps → Guard → TenantId → String → Subject → String → Action → Result Bytes → Guard × Reply
execute_answer d g tid id by idem a (err e) =
    let a' = record a { state = failed; state_reason = message e; updated_at = d.now 3 } in
    let g' =
      audit d 4 (set g id a') tid by.id "action_failed"
        (("action_id", text id) ∷ ("reason", text (message e)) ∷ []) in
    (store_idempotency d g' tid "execute" idem (action_ref id) a', stopped a' e)
execute_answer d g tid id by idem a (ok stdout) =
    let a' = record a { state = verifying; dry_run_output = stdout; updated_at = d.now 3 } in
    let g' = audit d 4 (set g id a') tid by.id "action_verifying" (("action_id", text id) ∷ []) in
    (store_idempotency d g' tid "execute" idem (action_ref id) a', done a')

unfoldable pub execute_call :
    Deps
    → Guard
    → TenantId
    → String
    → Subject
    → String
    → Action
    → (Request → Result Bytes)
    → Verb
    → Bytes
    → Guard × Reply
execute_call d g tid id by idem a exec verb stdin =
    let req = to_request a verb stdin in
    let g' = record g { calls = (a, req) ∷ g.calls } in
    let a' = record a { executed_at = d.now 2; verify_deadline = d.now 2 + g.cfg.verify_window } in
    execute_answer d g' tid id by idem a' (exec req)

unfoldable pub execute_payload :
    Deps
    → Guard
    → TenantId
    → String
    → Subject
    → String
    → Action
    → (Request → Result Bytes)
    → Verb
    → Guard × Reply
execute_payload d g tid id by idem a exec verb = elim (stdin_payload d.json a) [
  | err e ↦ fail_at d 3 (d.now 2) g tid id by a (message e) "action_failed" e
  | ok stdin ↦ elim (check_payload_scope d.json d.path_match a.proposal stdin) [
    | err e ↦ fail_at d 3 (d.now 2) g tid id by a (message e) "action_failed_payload_out_of_scope" e
    | ok _ ↦ execute_call d g tid id by idem a exec verb stdin
  ]
]

-- From the transition to Executing on.
unfoldable pub execute_run :
    Deps → Guard → TenantId → String → Subject → String → Action → Guard × Reply
execute_run d g tid id by idem a =
    let a' = record a { state = executing; updated_at = d.now 0 } in
    let g' =
      audit d 1 (set g id a') tid by.id "action_executing"
        (("action_id", text id) ∷ ("executor", text a.executor_kind) ∷ []) in
    elim (d.executors a.executor_kind) [
      | none ↦ fail_silently d 2 g' id a' "unknown_executor" unknown_executor
      | some exec ↦ elim (verb_for_action a.proposal.action_type) [
        | err e ↦ fail_silently d 2 g' id a' (message e) e
        | ok verb ↦ execute_payload d g' tid id by idem a' exec verb
      ]
    ]

unfoldable pub execute_snapshot :
    Deps → Guard → TenantId → String → Subject → String → Action → Guard × Reply
execute_snapshot d g tid id by idem a = elim d.snapshot [
  | none ↦ execute_run d g tid id by idem a
  | some take ↦ elim (take tid a.proposal.target) [
    | err e ↦
        let a' = record a { updated_at = d.now 0 } in
        (
          audit d 1 (set g id a') tid by.id "snapshot_failed"
              (("action_id", text id) ∷ ("error", text (message e)) ∷ []),
          stopped a' snapshot_failed,
        )
    | ok snap ↦ execute_run d g tid id by idem (record a { pre_snapshot = snap })
  ]
]

-- The allowlists are read again; where the policy cannot be read, they are not checked.
unfoldable pub execute_allowed :
    Deps → Guard → TenantId → String → Subject → String → Action → Guard × Reply
execute_allowed d g tid id by idem a = elim (get_policy d g tid) [
  | err e ↦ execute_snapshot d g tid id by idem a
  | ok pol ↦ elim (check_allowlists d.path_match a.proposal pol) [
    | err e ↦
        fail_at d 1 (d.now 0) g tid id by a "allowlist_revoked" "execute_failed_allowlist_revoked" e
    | ok _ ↦ execute_snapshot d g tid id by idem a
  ]
]

-- The action with the target that the resolver gave.
abbrev pub retarget : Action → ActionTarget → Action
retarget a t = record a { proposal = record a.proposal { target = t } }

-- Whether the live object is another one than the proposal's.
abbrev pub is_replaced : Action → ActionTarget → Bool
is_replaced a t =
    not (str_eq a.proposal.target.resolved_uid "")
    && not (str_eq t.resolved_uid a.proposal.target.resolved_uid)

unfoldable pub execute_resolved :
    Deps → Guard → TenantId → String → Subject → String → Action → Guard × Reply
execute_resolved d g tid id by idem a = elim d.resolver [
  | none ↦ execute_allowed d g tid id by idem a
  | some resolve ↦ elim (resolve tid a.proposal.target) [
    | err e ↦
        fail_at d 1 (d.now 0) g tid id by a "target_not_resolvable"
          "execute_failed_target_not_resolvable" target_not_resolvable
    | ok t ↦
        if is_replaced a t
        then fail_at d 1 (d.now 0) g tid id by a "target_replaced" "execute_failed_target_replaced"
            target_replaced
        else execute_allowed d g tid id by idem (retarget a t)
  ]
]

unfoldable pub execute_fresh :
    Deps → Guard → TenantId → String → Subject → String → Action → Guard × Reply
execute_fresh d g tid id by idem a =
    if state_eq a.state approved && leb a.expires_at (d.now 0)
    then (let a' = record a { state = expired; updated_at = d.now 0 } in
        (
          audit d 1 (set g id a') tid by.id "action_expired_approval_ttl"
              (("action_id", text id) ∷ []),
          stopped a' action_expired,
        ))
    else if not (state_eq a.state approved)
    then (g, refused illegal_transition)
    else execute_resolved d g tid id by idem a

unfoldable pub execute : Deps → Guard → TenantId → String → Subject → String → Guard × Reply
execute d g tid id by idem = elim (get g tid id) [
  | err e ↦ (g, refused e)
  | ok a ↦ elim (check_idempotency d g tid "execute" idem (action_ref id)) [
    | clash e ↦ (g, refused e)
    | hit c ↦ (g, done c)
    | fresh ↦ execute_fresh d g tid id by idem a
  ]
]
