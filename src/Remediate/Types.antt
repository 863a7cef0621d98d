-- ===== src/Remediate/Types.antt =====
-- internal/model/remediate.go, and what internal/remediate takes from internal/tenant,
-- internal/auth and internal/k8s: the data of the remediation control plane.
use tracing_bot.Prelude.{
  ℕ, ◌+◌, ◌≡◌, refl, ◌⊎◌, inl, inr, String, Bool, true, false, Option, List, ◌==◌,
}
use tracing_bot.Prelude.Int.{ℤ}
use tracing_bot.Prelude.Assoc.{Assoc}
use tracing_bot.Prelude.Bytes.{Bytes}

-- `time.Time` in nanoseconds after its zero value, and `time.Duration` in nanoseconds.
abbrev pub Time : Type 0
Time = ℕ

abbrev pub Duration : Type 0
Duration = ℕ

abbrev pub TenantId : Type 0
TenantId = String

-- The closed enum of five actions; `other` is any further value of the uint8.
pub data ActionType : Type 0 where
  rollback_deployment scale_replicas restart_pod toggle_feature_flag remove_istio_fault : ActionType
  other : ℕ → ActionType

abbrev type_code : ActionType → ℕ
type_code rollback_deployment = 1
type_code scale_replicas = 2
type_code restart_pod = 3
type_code toggle_feature_flag = 4
type_code remove_istio_fault = 5
type_code (other n) = n + 6

abbrev pub type_eq : ActionType → ActionType → Bool
type_eq a b = type_code a == type_code b

pub data TargetKind : Type 0 where
  deployment stateful_set pod config_map virtual_service : TargetKind
  other_kind : ℕ → TargetKind

pub record ActionTarget : Type 0 where
  pub cluster : String
  pub namespace : String
  pub kind : TargetKind
  pub name : String
  pub resolved_uid : String
  pub resolved_version : String

pub record RollbackDeploymentSpec : Type 0 where
  pub to_revision : ℤ  -- int64

pub record ScaleReplicasSpec : Type 0 where
  pub replicas : ℤ  -- int32

pub record RestartPodSpec : Type 0 where
  pub grace_period_seconds : ℤ  -- int32

pub record ToggleFeatureFlagSpec : Type 0 where
  pub key : String
  pub value : Bool

pub data RemoveIstioFaultSpec : Type 0 where
  remove_istio_fault_spec : RemoveIstioFaultSpec

pub record ActionProposal : Type 0 where
  pub id : String
  pub tenant : TenantId
  pub incident_id : String
  pub investigation_id : String
  pub action_type : ActionType
  pub target : ActionTarget
  pub risk_tier : ℕ  -- uint8
  pub rationale : String
  pub proposed_by : String
  pub proposed_at : Time
  pub rollback : Option RollbackDeploymentSpec
  pub scale : Option ScaleReplicasSpec
  pub restart : Option RestartPodSpec
  pub feature_flag : Option ToggleFeatureFlagSpec
  pub istio_fault : Option RemoveIstioFaultSpec

pub data ActionState : Type 0 where
  proposed approved rejected executing verifying succeeded failed rolled_back expired : ActionState

abbrev state_code : ActionState → ℕ
state_code proposed = 1
state_code approved = 2
state_code rejected = 3
state_code executing = 4
state_code verifying = 5
state_code succeeded = 6
state_code failed = 7
state_code rolled_back = 8
state_code expired = 9

abbrev pub state_eq : ActionState → ActionState → Bool
state_eq a b = state_code a == state_code b

pub record Snapshot : Type 0 where
  pub resource_version : String
  pub generation : ℤ
  pub uid : String
  pub taken_at : Time
  pub sha256 : String
  pub raw_json : Bytes

abbrev pub no_snapshot : Snapshot
no_snapshot = record {
  resource_version = "";
  generation = ℤ.pos 0;
  uid = "";
  taken_at = 0;
  sha256 = "";
  raw_json = List.[];
}

pub record VerifyResult : Type 0 where
  pub verified : Bool
  pub message : String
  pub verified_at : Time
  pub details : Assoc String

abbrev pub no_result : VerifyResult
no_result = record { verified = false; message = ""; verified_at = 0; details = List.[] }

pub record Action : Type 0 where
  pub id : String
  pub tenant : TenantId
  pub incident_id : String
  pub investigation_id : String
  pub proposal : ActionProposal
  pub state : ActionState
  pub state_reason : String
  pub proposed_by : String
  pub approved_by : String
  pub approved_at : Time
  pub expires_at : Time
  pub executor_kind : String
  pub pre_snapshot : Snapshot
  pub dry_run_output : Bytes
  pub executed_at : Time
  pub verify_deadline : Time
  pub post_verify : VerifyResult
  pub verified : Bool
  pub auto_execute : Bool
  pub budget_index : ℕ
  pub override_used : Bool
  pub override_justification : String
  pub overridden_by : String
  pub overridden_at : Time
  pub audit_seqs : List ℕ
  pub error : String
  pub created_at : Time
  pub updated_at : Time

-- What remediate reads of `tenant.Policy`.
pub record Policy : Type 0 where
  pub remediation_allowlist : List ActionType
  pub namespace_allowlist : List String
  pub target_allowlist : List String
  pub action_budget_per_incident : ℤ
  pub auto_execute_allowed : Bool
  pub feature_flags : Assoc (List String)
  pub max_replicas : ℤ

-- What remediate reads of `auth.Subject`.
pub record Subject : Type 0 where
  pub id : String

-- The sentinels of errors.go; `upstream` is an error that a collaborator returned, with its text.
pub data Error : Type 0 where
  invalid_proposal target_not_resolvable target_replaced approver_must_differ : Error
  action_expired budget_exceeded override_limit override_justification_too_short : Error
  illegal_transition not_found payload_out_of_scope nothing_to_remove forbidden_flag : Error
  idempotency_key_reused idempotency_key_required auto_execute_forbidden unknown_executor : Error
  needs_context snapshot_failed rollback_refused_concurrent_modification : Error
  upstream : String → Error

pub data Result {ℓ} (A : Type ℓ) : Type ℓ where
  ok : A → Result A
  err : Error → Result A

pub Result-cases {ℓ} :
    {A : Type ℓ} (r : Result A) → ((a : A) × (r ≡ ok a)) ⊎ ((e : Error) × (r ≡ err e))
Result-cases (ok a) = inl (a, refl)
Result-cases (err e) = inr (e, refl)

-- A predicate of the value, where there is one.
abbrev pub OnOk {ℓ κ} : {A : Type ℓ} → Result A → (A → Type κ) → Type κ
OnOk (ok a) P = P a
OnOk (err e) P = Unit

pub OnOk-intro {ℓ κ} :
    {A : Type ℓ} (r : Result A) (P : A → Type κ) → ((a : A) → r ≡ ok a → P a) → OnOk r P
OnOk-intro (ok a) P h = h a refl
OnOk-intro (err e) P h = tt

-- Chains of checks, each of which may refuse.
infixl 5 ◌>>◌
abbrev pub ◌>>◌ : Result (Unit {0}) → Result (Unit {0}) → Result (Unit {0})
ok _ >> k = k
err e >> k = err e

abbrev pub refuse_if : Bool → Error → Result (Unit {0})
refuse_if true e = err e
refuse_if false e = ok tt

-- The kubectl subcommands of `k8s.Verb`.
pub data Verb : Type 0 where
  verb_get verb_scale verb_rollout_undo verb_delete_pod verb_patch : Verb

-- `k8s.Request`, without `Argv`, which only `k8s.BuildArgv` fills.
pub record Request : Type 0 where
  pub verb : Verb
  pub namespace : String
  pub kind : TargetKind
  pub name : String
  pub stdin_json : Bytes
  pub dry_run : Bool
  pub timeout : Duration
