-- ===== src/Remediate/Guard/Settle.antt =====
-- guard.go: `Verify` and `Rollback`.
use tracing_bot.Prelude.{String, Bool, true, ◌&&◌, not, none, some, [], ◌∷◌, str_eq, if◌then◌else◌}
use tracing_bot.Remediate.Types.{
  Time, TenantId, ActionTarget, Action, verifying, succeeded, failed, rolled_back, state_eq,
  VerifyResult, no_result, Subject, illegal_transition, rollback_refused_concurrent_modification,
  Result, ok, err,
}
use tracing_bot.Remediate.Guard.State.{
  Deps, Guard, Reply, done, refused, stopped, text, flag, RecoverySignal, audit, set, get,
}

abbrev judge :
    (Action → RecoverySignal → VerifyResult) → Action → Result RecoverySignal → VerifyResult
judge v a (err e) = no_result
judge v a (ok sig) = v a sig

abbrev unchecked : Time → VerifyResult
unchecked now = record {
  verified = true;
  message = "no verifier configured; default success";
  verified_at = now;
  details = [];
}

-- The verifier's own error is ignored, as in the source.
unfoldable pub verify_result : Deps → TenantId → Action → VerifyResult
verify_result d tid a = elim d.signals [
  | none ↦ unchecked (d.now 0)
  | some signal ↦ elim d.verifier [
    | none ↦ unchecked (d.now 0)
    | some check ↦ judge (check tid) a (signal tid a)
  ]
]

-- The action after a verification.
abbrev pub settle : Deps → Action → VerifyResult → Action
settle d a res = record a {
  post_verify = res;
  verified = res.verified;
  state = if res.verified then succeeded else failed;
  state_reason = if res.verified then a.state_reason else "verify_failed";
  updated_at = d.now 1;
}

unfoldable pub verify_found :
    Deps → Guard → TenantId → String → Action → Guard × Result VerifyResult
verify_found d g tid id a =
    if not (state_eq a.state verifying)
    then (g, err illegal_transition)
    else let res = verify_result d tid a in
      (
        audit d 2 (set g id (settle d a res)) tid "system" "action_verified"
            (("action_id", text id) ∷ ("verified", flag res.verified) ∷ []),
        ok res,
      )

unfoldable pub verify : Deps → Guard → TenantId → String → Guard × Result VerifyResult
verify d g tid id = elim (get g tid id) [ err e ↦ (g, err e) | ok a ↦ verify_found d g tid id a ]

unfoldable pub roll_back_now :
    Deps → Guard → TenantId → String → Subject → String → Action → Guard × Reply
roll_back_now d g tid id by reason a =
    let a' = record a { state = rolled_back; state_reason = reason; updated_at = d.now 0 } in
    (
      audit d 1 (set g id a') tid by.id "action_rolled_back"
          (("action_id", text id) ∷ ("reason", text reason) ∷ []),
      done a',
    )

-- Whether the live object has moved on since the snapshot.
abbrev pub is_modified : Action → ActionTarget → Bool
is_modified a live =
    not (str_eq a.pre_snapshot.resource_version "")
    && not (str_eq live.resolved_version a.pre_snapshot.resource_version)

unfoldable pub rollback_live :
    Deps → Guard → TenantId → String → Subject → String → Action → Guard × Reply
rollback_live d g tid id by reason a = elim d.resolver [
  | none ↦ roll_back_now d g tid id by reason a
  | some resolve ↦ elim (resolve tid a.proposal.target) [
    | err e ↦ roll_back_now d g tid id by reason a
    | ok live ↦
        if is_modified a live
        then (let a' = record a {
          state = failed;
          state_reason = "concurrent_modification";
          updated_at = d.now 0;
        } in
            (
              audit d 1 (set g id a') tid by.id "rollback_refused_concurrent_modification"
                  (("action_id", text id) ∷ []),
              stopped a' rollback_refused_concurrent_modification,
            ))
        else roll_back_now d g tid id by reason a
  ]
]

unfoldable pub rollback_found :
    Deps → Guard → TenantId → String → Subject → String → Action → Guard × Reply
rollback_found d g tid id by reason a =
    if not (state_eq a.state verifying) && not (state_eq a.state failed)
    then (g, refused illegal_transition)
    else rollback_live d g tid id by reason a

unfoldable pub rollback : Deps → Guard → TenantId → String → Subject → String → Guard × Reply
rollback d g tid id by reason = elim (get g tid id) [
  | err e ↦ (g, refused e)
  | ok a ↦ rollback_found d g tid id by reason a
]
