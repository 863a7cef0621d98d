-- ===== src/Remediate/Executor.antt =====
-- internal/remediate/executor.go: verbs, payloads and the two executors. The JSON encoding of
-- Go's encoding/json is the parameter `Json`.
use tracing_bot.Prelude.{
  ℕ, String, Bool, true, false, ◌||◌, not, Option, none, some, List, [], ◌∷◌, ◌==◌, str_eq,
  if◌then◌else◌, length, is_empty,
}
use tracing_bot.Prelude.Assoc.{Assoc, lookup}
use tracing_bot.Prelude.Bytes.{Bytes}
use tracing_bot.Remediate.Types.{
  Duration, ActionType, rollback_deployment, scale_replicas, restart_pod, toggle_feature_flag,
  remove_istio_fault, other, ActionTarget, ActionProposal, ToggleFeatureFlagSpec, Action, Result,
  ok, err, invalid_proposal, payload_out_of_scope, nothing_to_remove, forbidden_flag, needs_context,
  upstream, Verb, verb_scale, verb_rollout_undo, verb_delete_pod, verb_patch, Request, ◌>>◌,
  refuse_if,
}
use tracing_bot.Remediate.Validate.{dns1123}

pub record PatchOp : Type 0 where
  pub op : String
  pub path : String

-- What the package uses of encoding/json. `none` is a parse error.
pub record Json : Type 0 where
  pub marshal_data : String → String → Bytes  -- {"data": {key: value}}
  pub unmarshal_data : Bytes → Option (Assoc (Assoc String))
  pub unmarshal_ops : Bytes → Option (List PatchOp)

unfoldable pub verb_for_action : ActionType → Result Verb
verb_for_action rollback_deployment = ok verb_rollout_undo
verb_for_action scale_replicas = ok verb_scale
verb_for_action restart_pod = ok verb_delete_pod
verb_for_action toggle_feature_flag = ok verb_patch
verb_for_action remove_istio_fault = ok verb_patch
verb_for_action (other n) = err invalid_proposal

abbrev format_bool : Bool → String
format_bool true = "true"
format_bool false = "false"

module _ (json : Json) where
  -- A missing flag spec is a fault of the source; `validate_proposal` keeps it from happening.
  flag_payload : Option ToggleFeatureFlagSpec → Result Bytes
  flag_payload none = err (upstream "nil FeatureFlag")
  flag_payload (some s) = ok (json.marshal_data s.key (format_bool s.value))

  stdin_for : ActionType → Action → Result Bytes
  unfolding flag_payload
  stdin_for rollback_deployment a = ok []
  stdin_for scale_replicas a = ok []
  stdin_for restart_pod a = ok []
  stdin_for toggle_feature_flag a = flag_payload a.proposal.feature_flag
  stdin_for remove_istio_fault a =
      if is_empty a.pre_snapshot.raw_json then err nothing_to_remove else err needs_context
  stdin_for (other n) a = err invalid_proposal

  unfoldable pub stdin_payload : Action → Result Bytes
  unfolding stdin_for
  stdin_payload a = stdin_for a.proposal.action_type a

  abbrev is_present {ℓ} : {A : Type ℓ} → Option A → Bool
  is_present none = false
  is_present (some x) = true

  -- Exactly {"data": {key: …}}.
  flag_data : String → ℕ → Option (Assoc String) → Result (Unit {0})
  flag_data key fields none = err payload_out_of_scope
  flag_data key fields (some inner) =
      refuse_if (not (fields == 1) || not (length inner == 1)) payload_out_of_scope
      >> refuse_if (not (is_present (lookup key inner))) payload_out_of_scope

  flag_body : String → Option (Assoc (Assoc String)) → Result (Unit {0})
  unfolding flag_data
  flag_body key none = err payload_out_of_scope
  flag_body key (some body) = flag_data key (length body) (lookup "data" body)

  flag_scope : Option ToggleFeatureFlagSpec → Bytes → Result (Unit {0})
  unfolding flag_body
  flag_scope none stdin = err payload_out_of_scope
  flag_scope (some s) stdin = flag_body s.key (json.unmarshal_data stdin)

  module _ (path_match : String → String → Option Bool) where
    abbrev is_match : Option Bool → Bool
    is_match (some true) = true
    is_match _ = false

    ops_scope : List PatchOp → Result (Unit {0})
    ops_scope [] = ok tt
    ops_scope (o ∷ rest) =
        refuse_if (not (str_eq o.op "remove")) payload_out_of_scope
        >> refuse_if (not (is_match (path_match "/spec/http/*/fault" o.path))) payload_out_of_scope
        >> ops_scope rest

    fault_scope : Option (List PatchOp) → Result (Unit {0})
    unfolding ops_scope
    fault_scope none = err payload_out_of_scope
    fault_scope (some ops) = ops_scope ops

    scope_for : ActionType → ActionProposal → Bytes → Result (Unit {0})
    unfolding flag_scope fault_scope
    scope_for toggle_feature_flag p stdin = flag_scope p.feature_flag stdin
    scope_for remove_istio_fault p stdin = fault_scope (json.unmarshal_ops stdin)
    scope_for _ p stdin = err payload_out_of_scope

    unfoldable pub check_payload_scope : ActionProposal → Bytes → Result (Unit {0})
    unfolding scope_for
    check_payload_scope p stdin = if is_empty stdin then ok tt else scope_for p.action_type p stdin

unfoldable pub build_kubectl_request :
    Verb → ActionTarget → Bytes → Bool → Duration → Result Request
build_kubectl_request verb target stdin_json dry_run timeout =
    if not (dns1123 target.namespace)
    then err forbidden_flag
    else if not (dns1123 target.name)
    then err forbidden_flag
    else ok (record {
      verb = verb;
      namespace = target.namespace;
      kind = target.kind;
      name = target.name;
      stdin_json = stdin_json;
      dry_run = dry_run;
      timeout = timeout;
    })

-- A call that may panic.
pub data Outcome (A : Type 0) : Type 0 where
  returned : A → Outcome A
  panicked : String → Outcome A

-- `k8s.BuildArgv`, which is not implemented.
build_argv : Request → Outcome (Result (List String))
build_argv r = panicked "not implemented"

-- `recover()` turns a panic of `BuildArgv` into an error.
recovered : Option (List String → Result Bytes) → Outcome (Result (List String)) → Result Bytes
recovered runner (panicked p) = err (upstream p)
recovered runner (returned (err e)) = err e
recovered none (returned (ok argv)) = err (upstream "Runner not wired")
recovered (some run) (returned (ok argv)) = run argv

-- `KubectlExecutor.Do`; the result is what the process printed.
unfoldable pub kubectl_do : Option (List String → Result Bytes) → Request → Result Bytes
unfolding recovered build_argv
kubectl_do runner r = recovered runner (build_argv r)

-- `DryRunExecutor.Do`: a function of the request, which succeeds.
unfoldable pub dry_run_do : (Request → Bytes) → Request → Result Bytes
dry_run_do marshal r = ok (marshal r)
