-- ===== src/Remediate/Validate.antt =====
-- internal/remediate/validate.go: the checks of a proposal and of the tenant's three allowlists.
-- `path.Match` is the parameter `path_match`: `none` is its error for a malformed pattern.
pub mod Accepted
use Prim.Native.String.{◌++◌ as concat}
use tracing_bot.Prelude.{
  ℕ, ◌+◌, String, Bool, true, false, ◌&&◌, ◌||◌, not, Option, none, some, List, [], ◌∷◌, ltb, leb,
  ◌==◌, str_eq, if◌then◌else◌, any, length,
}
use tracing_bot.Prelude.Int.{ℤ, pos, ltb_ℤ, leb_ℤ}
use tracing_bot.Prelude.Assoc.{lookup}
use tracing_bot.Prelude.Bytes.{codes, utf8}
use tracing_bot.Remediate.Types.{
  ActionType, rollback_deployment, scale_replicas, restart_pod, toggle_feature_flag,
  remove_istio_fault, other, type_eq, TargetKind, deployment, stateful_set, pod, config_map,
  virtual_service, other_kind, ActionTarget, ActionProposal, RollbackDeploymentSpec,
  ScaleReplicasSpec, RestartPodSpec, ToggleFeatureFlagSpec, Policy, Result, ok, err,
  invalid_proposal, ◌>>◌, refuse_if,
}

-- `riskTier`: the fixed table; `none` is its `false`.
unfoldable pub risk_tier : ActionType → Option ℕ
risk_tier restart_pod = some 1
risk_tier scale_replicas = some 1
risk_tier rollback_deployment = some 2
risk_tier toggle_feature_flag = some 2
risk_tier remove_istio_fault = some 3
risk_tier (other n) = none

abbrev pub is_some {ℓ} : {A : Type ℓ} → Option A → Bool
is_some none = false
is_some (some x) = true

is_alnum : ℕ → Bool
is_alnum c = leb b'a' c && leb c b'z' || leb b'0' c && leb c b'9'

is_inner : ℕ → Bool
unfolding is_alnum
is_inner c = is_alnum c || c == b'-' || c == b'.'

-- `[-a-z0-9.]{0,k}[a-z0-9]` up to the end of the text.
inner_match : ℕ → List ℕ → Bool
unfolding is_inner
inner_match k [] = false
inner_match k (c ∷ []) = is_alnum c
inner_match ℕ.zero (c ∷ d ∷ rest) = false
inner_match (ℕ.suc k) (c ∷ d ∷ rest) = is_inner c && inner_match k (d ∷ rest)

-- The regular expression `dns1123`, `^[a-z0-9]([-a-z0-9.]{0,251}[a-z0-9])?$`, on code points.
dns1123_match : List ℕ → Bool
unfolding inner_match
dns1123_match [] = false
dns1123_match (c ∷ []) = is_alnum c
dns1123_match (c ∷ d ∷ rest) = is_alnum c && inner_match 251 (d ∷ rest)

unfoldable pub dns1123 : String → Bool
unfolding dns1123_match
dns1123 s = dns1123_match (codes s)

abbrev is_known_kind : TargetKind → Bool
is_known_kind (other_kind n) = false
is_known_kind _ = true

unfoldable pub validate_target : ActionTarget → Result (Unit {0})
validate_target t =
    refuse_if (str_eq t.namespace "" || not (dns1123 t.namespace)) invalid_proposal
    >> refuse_if (str_eq t.name "" || not (dns1123 t.name)) invalid_proposal
    >> refuse_if (not (is_known_kind t.kind)) invalid_proposal

-- Whether the spec pointer of a type is set.
abbrev pub has_spec : ActionProposal → ActionType → Bool
has_spec p rollback_deployment = is_some p.rollback
has_spec p scale_replicas = is_some p.scale
has_spec p restart_pod = is_some p.restart
has_spec p toggle_feature_flag = is_some p.feature_flag
has_spec p remove_istio_fault = is_some p.istio_fault
has_spec p (other n) = false

abbrev one_if : Bool → ℕ
one_if true = 1
one_if false = 0

-- `len(specs)`.
abbrev pub spec_count : ActionProposal → ℕ
spec_count p =
    one_if (is_some p.rollback)
    + one_if (is_some p.scale)
    + one_if (is_some p.restart)
    + one_if (is_some p.feature_flag)
    + one_if (is_some p.istio_fault)

abbrev pub replica_cap : Policy → ℤ
replica_cap pol = if leb_ℤ pol.max_replicas (pos 0) then pos 50 else pol.max_replicas

abbrev wanted : Bool → String
wanted true = "true"
wanted false = "false"

check_rollback : Option RollbackDeploymentSpec → Result (Unit {0})
check_rollback none = err invalid_proposal
check_rollback (some s) = refuse_if (ltb_ℤ s.to_revision (pos 0)) invalid_proposal

check_scale : Policy → Option ScaleReplicasSpec → Result (Unit {0})
check_scale pol none = err invalid_proposal
check_scale pol (some s) =
    refuse_if (ltb_ℤ s.replicas (pos 1) || ltb_ℤ (replica_cap pol) s.replicas) invalid_proposal

check_restart : Option RestartPodSpec → Result (Unit {0})
check_restart none = err invalid_proposal
check_restart (some s) =
    refuse_if (ltb_ℤ s.grace_period_seconds (pos 0) || ltb_ℤ (pos 300) s.grace_period_seconds)
      invalid_proposal

check_allowed_values : String → Option (List String) → Result (Unit {0})
check_allowed_values want none = err invalid_proposal
check_allowed_values want (some allowed) =
    refuse_if (not (any (λ v. str_eq v want) allowed)) invalid_proposal

check_flag : Policy → Option ToggleFeatureFlagSpec → Result (Unit {0})
unfolding check_allowed_values
check_flag pol none = err invalid_proposal
check_flag pol (some s) = check_allowed_values (wanted s.value) (lookup s.key pol.feature_flags)

-- The `switch` over the type. Where its spec is missing the source would fault; the check before it
-- keeps that from happening.
validate_fields : ActionType → ActionProposal → Policy → Result (Unit {0})
unfolding check_rollback check_scale check_restart check_flag
validate_fields rollback_deployment p pol = check_rollback p.rollback
validate_fields scale_replicas p pol = check_scale pol p.scale
validate_fields restart_pod p pol = check_restart p.restart
validate_fields toggle_feature_flag p pol = check_flag pol p.feature_flag
validate_fields remove_istio_fault p pol = ok tt
validate_fields (other n) p pol = ok tt

unfoldable pub validate_proposal : ActionProposal → Policy → Result (Unit {0})
unfolding validate_fields risk_tier validate_target
validate_proposal p pol =
    refuse_if (not (spec_count p == 1)) invalid_proposal
    >> refuse_if (not (has_spec p p.action_type)) invalid_proposal
    >> refuse_if (not (is_some (risk_tier p.action_type))) invalid_proposal
    >> refuse_if (ltb 2000 (length (utf8 p.rationale))) invalid_proposal
    >> validate_target p.target
    >> validate_fields p.action_type p pol

unfoldable pub kind_name : TargetKind → String
kind_name deployment = "Deployment"
kind_name stateful_set = "StatefulSet"
kind_name pod = "Pod"
kind_name config_map = "ConfigMap"
kind_name virtual_service = "VirtualService"
kind_name (other_kind n) = "Unknown"

abbrev matched : Option Bool → Bool
matched (some true) = true
matched _ = false

module _ (path_match : String → String → Option Bool) where
  abbrev pub candidate : ActionTarget → String
  candidate t = concat t.namespace (concat "/" (concat (kind_name t.kind) (concat "/" t.name)))

  unfoldable pub check_target_allowlist : ActionTarget → List String → Result (Unit {0})
  check_target_allowlist t allowlist =
      refuse_if (not (any (λ pattern'. matched (path_match pattern' (candidate t))) allowlist))
        invalid_proposal

  unfoldable pub check_allowlists : ActionProposal → Policy → Result (Unit {0})
  unfolding check_target_allowlist
  check_allowlists p pol =
      refuse_if (not (any (λ t. type_eq t p.action_type) pol.remediation_allowlist))
        invalid_proposal
      >> refuse_if (not (any (λ ns. str_eq ns p.target.namespace) pol.namespace_allowlist))
          invalid_proposal
      >> check_target_allowlist p.target pol.target_allowlist
