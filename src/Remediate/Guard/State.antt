-- ===== src/Remediate/Guard/State.antt =====
-- guard.go: the Guard's state, its collaborators, idempotency, the incident budget and the audit
-- calls. The mutex makes each method one step, so a method is a function of the state. The
-- collaborators are an argument of each call: they may answer differently from call to call.
use Prim.Native.String.{◌++◌ as concat}
use tracing_bot.Prelude.{
  ℕ, suc, ◌*◌, ◌^◌, ◌≡◌, refl, ◌⊎◌, inl, inr, String, Bool, false, ◌&&◌, ◌||◌, not, Option, none,
  some, List, [], ◌∷◌, ◌==◌, str_eq, if◌then◌else◌,
}
use tracing_bot.Prelude.Int.{ℤ, pos, is_zero}
use tracing_bot.Prelude.Assoc.{Assoc, lookup, put}
use tracing_bot.Prelude.Bytes.{Bytes}
use tracing_bot.Remediate.Types.{
  Time, Duration, TenantId, ActionType, ActionTarget, ActionProposal, Action, rejected, expired,
  state_eq, Snapshot, VerifyResult, Policy, Error, approver_must_differ, idempotency_key_required,
  idempotency_key_reused, not_found, Result, ok, err, Request,
}
use tracing_bot.Remediate.Audit.{AuditLog, new_audit_log, append}
use tracing_bot.Remediate.Executor.{Json}

-- The values of the JSON object that an audit entry carries.
pub data Detail : Type 0 where
  text : String → Detail
  number : ℕ → Detail
  flag : Bool → Detail
  moment : Time → Detail
  target : ActionTarget → Detail
  kind : ActionType → Detail

-- What an idempotency hash is taken of: the proposal, or the id of the action.
pub data ApiRequest : Type 0 where
  proposal : ActionProposal → ApiRequest
  action_ref : String → ApiRequest

pub record RecoverySignal : Type 0 where
  pub service : String
  pub operation : String
  pub p99_before_nanos : ℕ
  pub p99_after_nanos : ℕ
  pub open_incidents : ℕ

-- `Deps`, with `none` for a nil interface, and the standard library's functions that guard.go calls.
-- `now k` is the k-th reading of the clock within the call; `action_id n` is `nextID(n)`, which
-- hashes the wall clock; `request_hash` and `marshal` encode as JSON, the first then hashes.
pub record Deps : Type 0 where
  pub policy : Option (TenantId → Result Policy)
  pub resolver : Option (TenantId → ActionTarget → Result ActionTarget)
  pub snapshot : Option (TenantId → ActionTarget → Result Snapshot)
  pub verifier : Option (TenantId → Action → RecoverySignal → VerifyResult)
  pub signals : Option (TenantId → Action → Result RecoverySignal)
  pub authz : Option (String → String → Result (Unit {0}))
  pub executors : String → Option (Request → Result Bytes)
  pub now : ℕ → Time
  pub action_id : ℕ → String
  pub request_hash : ApiRequest → String
  pub marshal : List (String × Detail) → Bytes
  pub path_match : String → String → Option Bool
  pub json : Json
  pub sha : Bytes → Bytes

pub record GuardConfig : Type 0 where
  pub mode : String
  pub default_executor : String
  pub approval_ttl : Duration
  pub proposal_ttl : Duration
  pub verify_window : Duration
  pub auto_execute_on_approve : Bool
  pub default_action_budget : ℤ
  pub max_budget_overrides : ℤ

abbrev pub minute : Duration
minute = 60 * 10 ^ 9

abbrev or_default : ℕ → ℕ → ℕ
or_default n d = if n == 0 then d else n

abbrev or_default_ℤ : ℤ → ℤ → ℤ
or_default_ℤ n d = if is_zero n then d else n

unfoldable pub with_defaults : GuardConfig → GuardConfig
with_defaults c = record c {
  approval_ttl = or_default c.approval_ttl (15 * minute);
  proposal_ttl = or_default c.proposal_ttl (60 * minute);
  verify_window = or_default c.verify_window (10 * minute);
  default_action_budget = or_default_ℤ c.default_action_budget (pos 2);
  max_budget_overrides = or_default_ℤ c.max_budget_overrides (pos 1);
  default_executor = if str_eq c.default_executor "" then "dryrun" else c.default_executor;
}

pub record IdemRecord : Type 0 where
  pub hash : String
  pub action : Action

-- `calls` is not in the source: the requests that were handed to an executor, newest first, each
-- with the action that it was made for.
pub record Guard : Type 0 where
  pub cfg : GuardConfig
  pub actions : Assoc Action
  pub idem : Assoc IdemRecord
  pub seq : ℕ
  pub audit_log : AuditLog
  pub calls : List (Action × Request)

unfoldable pub new_guard : GuardConfig → Guard
unfolding with_defaults new_audit_log
new_guard c = record {
  cfg = with_defaults c;
  actions = [];
  idem = [];
  seq = 0;
  audit_log = new_audit_log;
  calls = [];
}

-- What a method returns: the action, an error with the zero action, or both an action and an error.
pub data Reply : Type 0 where
  done : Action → Reply
  refused : Error → Reply
  stopped : Action → Error → Reply

-- Every refusal of the audit sink is ignored, as in the source.
unfoldable pub audit :
    Deps → ℕ → Guard → TenantId → String → String → List (String × Detail) → Guard
audit d k g tid actor action payload = record g {
  audit_log =
      (append d.sha g.audit_log (record {
        tenant = tid;
        actor = actor;
        action = action;
        payload = d.marshal payload;
        timestamp = d.now k;
      })).0;
}

-- The write through the pointer into `g.actions`.
abbrev pub set : Guard → String → Action → Guard
set g id a = record g { actions = put id a g.actions }

abbrev pub idem_key : TenantId → String → String → String
idem_key tid endpoint key = concat tid (concat "|" (concat endpoint (concat "|" key)))

pub data IdemCheck : Type 0 where
  fresh : IdemCheck
  hit : Action → IdemCheck
  clash : Error → IdemCheck

pub IdemCheck-cases :
    (c : IdemCheck) → (c ≡ fresh) ⊎ (((a : Action) × (c ≡ hit a)) ⊎ ((e : Error) × (c ≡ clash e)))
IdemCheck-cases fresh = inl refl
IdemCheck-cases (hit a) = inr (inl (a, refl))
IdemCheck-cases (clash e) = inr (inr (e, refl))

abbrev pub match_record : String → Option IdemRecord → IdemCheck
match_record h none = fresh
match_record h (some rec) =
    if not (str_eq rec.hash h) then clash idempotency_key_reused else hit rec.action

unfoldable pub check_idempotency :
    Deps → Guard → TenantId → String → String → ApiRequest → IdemCheck
check_idempotency d g tid endpoint key req =
    if str_eq key ""
    then clash idempotency_key_required
    else match_record (d.request_hash req) (lookup (idem_key tid endpoint key) g.idem)

unfoldable pub store_idempotency :
    Deps → Guard → TenantId → String → String → ApiRequest → Action → Guard
store_idempotency d g tid endpoint key req a = if str_eq key "" then g else record g {
  idem = put (idem_key tid endpoint key) (record { hash = d.request_hash req; action = a }) g.idem;
}

-- Whether `budgetUsed` counts an action.
abbrev pub counts : TenantId → String → Action → Bool
counts tid incident_id a =
    str_eq a.tenant tid
    && str_eq a.incident_id incident_id
    && not (state_eq a.state rejected || state_eq a.state expired)

unfoldable pub budget_used : TenantId → String → Assoc Action → ℕ
budget_used tid incident_id [] = 0
budget_used tid incident_id ((k, a) ∷ rest) =
    let n = budget_used tid incident_id rest in if counts tid incident_id a then suc n else n

abbrev pub budget_cap : Guard → Policy → ℤ
budget_cap g pol =
    if is_zero pol.action_budget_per_incident
    then g.cfg.default_action_budget
    else pol.action_budget_per_incident

abbrev pub default_policy : GuardConfig → Policy
default_policy c = record {
  remediation_allowlist = [];
  namespace_allowlist = [];
  target_allowlist = [];
  action_budget_per_incident = c.default_action_budget;
  auto_execute_allowed = false;
  feature_flags = [];
  max_replicas = pos 50;
}

abbrev ask {ℓ} : {A : Type ℓ} → Option (TenantId → Result A) → TenantId → A → Result A
ask none tid a = ok a
ask (some f) tid a = f tid

unfoldable pub get_policy : Deps → Guard → TenantId → Result Policy
get_policy d g tid = ask d.policy tid (default_policy g.cfg)

abbrev owned : TenantId → Option Action → Result Action
owned tid none = err not_found
owned tid (some a) = if str_eq a.tenant tid then ok a else err not_found

unfoldable pub get : Guard → TenantId → String → Result Action
get g tid id = owned tid (lookup id g.actions)

abbrev pub separate :
    Option (String → String → Result (Unit {0})) → String → String → Result (Unit {0})
separate (some f) proposer approver = f proposer approver
separate none proposer approver =
    if str_eq proposer approver then err approver_must_differ else ok tt

unfoldable pub sep_of_duty : Deps → String → String → Result (Unit {0})
sep_of_duty d proposer approver = separate d.authz proposer approver
