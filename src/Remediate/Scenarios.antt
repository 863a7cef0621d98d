-- ===== src/Remediate/Scenarios.antt =====
-- A pod is restarted: the collaborators, the proposal and the calls that the examples use.
pub mod Lives
pub mod Logs
use tracing_bot.Prelude.{
  ℕ, ◌+◌, ◌*◌, ◌^◌, ◌++◌, List, String, true, false, none, some, [], ◌∷◌, str_eq, refl, ◌≡◌,
}
use tracing_bot.Prelude.Int.{ℤ, pos}
use tracing_bot.Prelude.Bytes.{Bytes, utf8}
use tracing_bot.Remediate.Types.{
  Time, ActionTarget, ActionProposal, ActionState, restart_pod, pod, verifying, Policy, Subject, ok,
}
use tracing_bot.Remediate.Executor.{Json}
use tracing_bot.Remediate.Guard.State.{
  Detail, text, ApiRequest, proposal, action_ref, Deps, Guard, GuardConfig, new_guard,
}
use tracing_bot.Remediate.Guard.Runs.{Call, proposing, approving, executing_call, apply}

abbrev pub request_id : ApiRequest → String
request_id (proposal p) = p.id
request_id (action_ref id) = id

abbrev pub restart_policy : Policy
restart_policy = record {
  remediation_allowlist = restart_pod ∷ [];
  namespace_allowlist = "shop" ∷ [];
  target_allowlist = "shop/Pod/cart" ∷ [];
  action_budget_per_incident = pos 1;
  auto_execute_allowed = false;
  feature_flags = [];
  max_replicas = pos 5;
}

abbrev json : Json
json = record { marshal_data = λ k v. []; unmarshal_data = λ b. none; unmarshal_ops = λ b. none }

-- The keys and the texts of a payload, one after another.
abbrev pub marshal_payload : List (String × Detail) → Bytes
marshal_payload [] = []
marshal_payload ((k, text s) ∷ rest) = utf8 k ++ utf8 s ++ marshal_payload rest
marshal_payload ((k, v) ∷ rest) = utf8 k ++ marshal_payload rest

abbrev id_of : ℕ → String
id_of ℕ.zero = "act-0"
id_of (ℕ.suc n) = "act-n"

-- The collaborators of a call at a time.
abbrev pub deps_at : Time → Deps
deps_at t = record {
  policy = some (λ tid. ok restart_policy);
  resolver = none;
  snapshot = none;
  verifier = none;
  signals = none;
  authz = none;
  executors = λ kind. some (λ r. ok (111 ∷ 107 ∷ []));
  now = λ k. t + k;
  action_id = id_of;
  request_hash = request_id;
  marshal = marshal_payload;
  path_match = λ p s. some (str_eq p s);
  json = json;
  sha = λ b. b;
}

abbrev pub config : GuardConfig
config = record {
  mode = "dryrun";
  default_executor = "";
  approval_ttl = 0;
  proposal_ttl = 0;
  verify_window = 0;
  auto_execute_on_approve = false;
  default_action_budget = pos 0;
  max_budget_overrides = pos 0;
}

abbrev pub restart_proposal : ActionProposal
restart_proposal = record {
  id = "";
  tenant = "acme";
  incident_id = "inc-1";
  investigation_id = "inv-1";
  action_type = restart_pod;
  target = record {
    cluster = "c1";
    namespace = "shop";
    kind = pod;
    name = "cart";
    resolved_uid = "";
    resolved_version = "";
  };
  risk_tier = 3;
  rationale = "leak";
  proposed_by = "";
  proposed_at = 0;
  rollback = none;
  scale = none;
  restart = some (record { grace_period_seconds = pos 30 });
  feature_flag = none;
  istio_fault = none;
}

abbrev pub alice : Subject
alice = record { id = "alice" }

abbrev pub bob : Subject
bob = record { id = "bob" }

abbrev pub proposal_call : Call
proposal_call = proposing "acme" restart_proposal alice "k1"

abbrev pub approval_call : Call
approval_call =
    approving "acme" "act-0" bob
      (record { comment = ""; override_justification = ""; request_budget_override = false })

abbrev pub execution_call : Call
execution_call = executing_call "acme" "act-0" bob "k2"

abbrev pub after_proposal : Guard
after_proposal = apply (deps_at 100) (new_guard config) proposal_call

abbrev pub after_approval : Guard
after_approval = apply (deps_at 200) after_proposal approval_call

abbrev pub after_execution : Guard
after_execution = apply (deps_at 300) after_approval execution_call
