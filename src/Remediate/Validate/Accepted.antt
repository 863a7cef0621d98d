-- ===== src/Remediate/Validate/Accepted.antt =====
-- validate.go: what holds of a proposal that was accepted, and what the later steps make of it.
use tracing_bot.Prelude.{
  Option, none, ℕ, ◌≤◌, ◌≡◌, refl, Bool, true, false, not, some, ltb, ◌==◌, arith, length, OnSome,
  OnSome-intro,
}
use tracing_bot.Prelude.Int.{pos, ◌≤ℤ◌}
use tracing_bot.Prelude.Bytes.{Bytes, utf8}
use tracing_bot.Remediate.Types.{
  Duration, ActionType, rollback_deployment, scale_replicas, restart_pod, toggle_feature_flag,
  remove_istio_fault, other, ActionTarget, ActionProposal, ScaleReplicasSpec, RestartPodSpec,
  ToggleFeatureFlagSpec, RemoveIstioFaultSpec, RollbackDeploymentSpec, Policy, Result, ok, err,
  Error, invalid_proposal, ◌>>◌, refuse_if, Verb, Request,
}
use tracing_bot.Remediate.Validate.{
  is_some, risk_tier, dns1123, validate_target, has_spec, spec_count, replica_cap, validate_fields,
  validate_proposal, check_scale, check_restart, check_rollback,
}
use tracing_bot.Remediate.Executor.{build_kubectl_request}

-- The checks that an accepted proposal has passed.
record Passes (p : ActionProposal) (pol : Policy) : Type 0 where
  count : spec_count p ≡ 1
  spec : has_spec p p.action_type ≡ true
  rationale : length (utf8 p.rationale) ≤ 2000
  target : validate_target p.target ≡ ok tt
  fields : validate_fields p.action_type p pol ≡ ok tt

chain-eq-ok : (a b : Result (Unit {0})) → a >> b ≡ ok tt → (a ≡ ok tt) × (b ≡ ok tt)
chain-eq-ok (ok u) b h = (refl, h)
chain-eq-ok (err e) b h = cc

refuse_if-eq-ok : (b : Bool) (e : Error) → refuse_if b e ≡ ok tt → b ≡ false
refuse_if-eq-ok true e h = cc
refuse_if-eq-ok false e h = refl

tested : (n : ℕ) → not (n == 1) ≡ false → n ≡ 1
tested n h = ground arith

kept : (b : Bool) → not b ≡ false → b ≡ true
kept b h = ground arith

short : (n : ℕ) → ltb 2000 n ≡ false → n ≤ 2000
short n h = ground arith

passes : (p : ActionProposal) (pol : Policy) → validate_proposal p pol ≡ ok tt → Passes p pol
unfolding validate_proposal
passes p pol h =
    let a = refuse_if (not (spec_count p == 1)) invalid_proposal in
    let b = refuse_if (not (has_spec p p.action_type)) invalid_proposal in
    let c = refuse_if (not (is_some (risk_tier p.action_type))) invalid_proposal in
    let d = refuse_if (ltb 2000 (length (utf8 p.rationale))) invalid_proposal in
    let e = validate_target p.target in
    let (h5, hf) = chain-eq-ok (a >> b >> c >> d >> e) (validate_fields p.action_type p pol) h in
    let (h4, he) = chain-eq-ok (a >> b >> c >> d) e h5 in
    let (h3, hd) = chain-eq-ok (a >> b >> c) d h4 in
    let (h2, hc) = chain-eq-ok (a >> b) c h3 in
    let (ha, hb) = chain-eq-ok a b h2 in
    record {
      count = tested _ (refuse_if-eq-ok _ _ ha);
      spec = kept _ (refuse_if-eq-ok _ _ hb);
      rationale = short _ (refuse_if-eq-ok _ _ hd);
      target = he;
      fields = hf;
    }

-- Which spec is set says which type the proposal has.
type_of_scale :
    (p : ActionProposal) (s : ScaleReplicasSpec) (t : ActionType)
    → spec_count p ≡ 1
    → has_spec p t ≡ true
    → p.scale ≡ some s
    → t ≡ scale_replicas
type_of_scale p s t c h e = ground arith

type_of_restart :
    (p : ActionProposal) (s : RestartPodSpec) (t : ActionType)
    → spec_count p ≡ 1
    → has_spec p t ≡ true
    → p.restart ≡ some s
    → t ≡ restart_pod
type_of_restart p s t c h e = ground arith

type_of_rollback :
    (p : ActionProposal) (s : RollbackDeploymentSpec) (t : ActionType)
    → spec_count p ≡ 1
    → has_spec p t ≡ true
    → p.rollback ≡ some s
    → t ≡ rollback_deployment
type_of_rollback p s t c h e = ground arith

scale_bounds :
    (pol : Policy) (s : ScaleReplicasSpec)
    → check_scale pol (some s) ≡ ok tt
    → (pos 1 ≤ℤ s.replicas) × (s.replicas ≤ℤ replica_cap pol)
unfolding check_scale
scale_bounds pol s h = ground arith

restart_bounds :
    (s : RestartPodSpec)
    → check_restart (some s) ≡ ok tt
    → (pos 0 ≤ℤ s.grace_period_seconds) × (s.grace_period_seconds ≤ℤ pos 300)
unfolding check_restart
restart_bounds s h = ground arith

rollback_bounds :
    (s : RollbackDeploymentSpec) → check_rollback (some s) ≡ ok tt → pos 0 ≤ℤ s.to_revision
unfolding check_rollback
rollback_bounds s h = ground arith

-- The proposal's spec is the one of its type, and no other is set.
pub data OwnSpec (p : ActionProposal) : Type 0 where
  own_rollback :
      (s : RollbackDeploymentSpec)
      → p.action_type ≡ rollback_deployment
      → p.rollback ≡ some s
      → p.scale ≡ none
      → p.restart ≡ none
      → p.feature_flag ≡ none
      → p.istio_fault ≡ none
      → OwnSpec p
  own_scale :
      (s : ScaleReplicasSpec)
      → p.action_type ≡ scale_replicas
      → p.rollback ≡ none
      → p.scale ≡ some s
      → p.restart ≡ none
      → p.feature_flag ≡ none
      → p.istio_fault ≡ none
      → OwnSpec p
  own_restart :
      (s : RestartPodSpec)
      → p.action_type ≡ restart_pod
      → p.rollback ≡ none
      → p.scale ≡ none
      → p.restart ≡ some s
      → p.feature_flag ≡ none
      → p.istio_fault ≡ none
      → OwnSpec p
  own_flag :
      (s : ToggleFeatureFlagSpec)
      → p.action_type ≡ toggle_feature_flag
      → p.rollback ≡ none
      → p.scale ≡ none
      → p.restart ≡ none
      → p.feature_flag ≡ some s
      → p.istio_fault ≡ none
      → OwnSpec p
  own_fault :
      (s : RemoveIstioFaultSpec)
      → p.action_type ≡ remove_istio_fault
      → p.rollback ≡ none
      → p.scale ≡ none
      → p.restart ≡ none
      → p.feature_flag ≡ none
      → p.istio_fault ≡ some s
      → OwnSpec p

OwnSpec-cases :
    (p : ActionProposal) (t : ActionType) (a : Option RollbackDeploymentSpec)
    (b : Option ScaleReplicasSpec) (d : Option RestartPodSpec) (e : Option ToggleFeatureFlagSpec)
    (f : Option RemoveIstioFaultSpec)
    → p.action_type ≡ t
    → p.rollback ≡ a
    → p.scale ≡ b
    → p.restart ≡ d
    → p.feature_flag ≡ e
    → p.istio_fault ≡ f
    → spec_count p ≡ 1
    → has_spec p t ≡ true
    → OwnSpec p
OwnSpec-cases p rollback_deployment (some s) none none none none q i j k l m c h =
    own_rollback s q i j k l m
OwnSpec-cases p scale_replicas none (some s) none none none q i j k l m c h =
    own_scale s q i j k l m
OwnSpec-cases p restart_pod none none (some s) none none q i j k l m c h = own_restart s q i j k l m
OwnSpec-cases p toggle_feature_flag none none none (some s) none q i j k l m c h =
    own_flag s q i j k l m
OwnSpec-cases p remove_istio_fault none none none none (some s) q i j k l m c h =
    own_fault s q i j k l m
OwnSpec-cases p t a b d e f q i j k l m c h = absurd (ground arith)

-- What an accepted proposal promises: a type of the closed set with its one spec, and the bounds of the
-- numbers in it.
pub record IsAccepted (p : ActionProposal) (pol : Policy) : Type 0 where
  pub tier : (t : ℕ) × (risk_tier p.action_type ≡ some t) × (1 ≤ t) × (t ≤ 3)
  pub own : OwnSpec p
  pub rationale : length (utf8 p.rationale) ≤ 2000
  pub scale : OnSome p.scale (λ s.
      (p.action_type ≡ scale_replicas) × (pos 1 ≤ℤ s.replicas) × (s.replicas ≤ℤ replica_cap pol))
  pub restart : OnSome p.restart (λ s.
      (p.action_type ≡ restart_pod)
      × (pos 0 ≤ℤ s.grace_period_seconds)
      × (s.grace_period_seconds ≤ℤ pos 300))
  pub rollback :
      OnSome p.rollback (λ s. (p.action_type ≡ rollback_deployment) × (pos 0 ≤ℤ s.to_revision))
  pub request :
      (verb : Verb) (stdin : Bytes) (dry_run : Bool) (timeout : Duration)
      → (r : Request) × (build_kubectl_request verb p.target stdin dry_run timeout ≡ ok r)
        × (r.namespace ≡ p.target.namespace)
        × (r.name ≡ p.target.name)

tier_of :
    (p : ActionProposal) (t : ActionType)
    → has_spec p t ≡ true
    → (n : ℕ) × (risk_tier t ≡ some n) × (1 ≤ n) × (n ≤ 3)
unfolding risk_tier
tier_of p rollback_deployment h = (2, refl, omega arith, omega arith)
tier_of p scale_replicas h = (1, refl, omega arith, omega arith)
tier_of p restart_pod h = (1, refl, omega arith, omega arith)
tier_of p toggle_feature_flag h = (2, refl, omega arith, omega arith)
tier_of p remove_istio_fault h = (3, refl, omega arith, omega arith)
tier_of p (other n) h = cc

request_of :
    (t : ActionTarget) (verb : Verb) (stdin : Bytes) (dry_run : Bool) (timeout : Duration)
    → validate_target t ≡ ok tt
    → (r : Request) × (build_kubectl_request verb t stdin dry_run timeout ≡ ok r)
      × (r.namespace ≡ t.namespace)
      × (r.name ≡ t.name)
unfolding build_kubectl_request validate_target
request_of t verb stdin dry_run timeout h =
    let a : dns1123 t.namespace ≡ true = ground arith in
    let b : dns1123 t.name ≡ true = ground arith in
    (
      record {
        verb = verb;
        namespace = t.namespace;
        kind = t.kind;
        name = t.name;
        stdin_json = stdin;
        dry_run = dry_run;
        timeout = timeout;
      },
      rw (a, build_kubectl_request, b),
      refl,
      refl,
    )

-- A proposal that `validateProposal` accepts has a type of the closed set, its own spec alone, numbers
-- within their bounds, and a target that `buildKubectlRequest` turns into a request for every verb.
pub validate_proposal-IsAccepted :
    (p : ActionProposal) (pol : Policy) → validate_proposal p pol ≡ ok tt → IsAccepted p pol
unfolding validate_fields
validate_proposal-IsAccepted p pol h =
    let c = passes p pol h in
    record {
      tier = tier_of p p.action_type c.spec;
      own =
          OwnSpec-cases p p.action_type p.rollback p.scale p.restart p.feature_flag p.istio_fault
            refl refl refl refl refl refl c.count c.spec;
      rationale = c.rationale;
      scale = OnSome-intro p.scale _ (λ s e.
          let t = type_of_scale p s p.action_type c.count c.spec e in
          let (low, high) = scale_bounds pol s (rw (t, validate_fields, e) at c.fields) in
          (t, low, high));
      restart = OnSome-intro p.restart _ (λ s e.
          let t = type_of_restart p s p.action_type c.count c.spec e in
          let (low, high) = restart_bounds s (rw (t, validate_fields, e) at c.fields) in
          (t, low, high));
      rollback = OnSome-intro p.rollback _ (λ s e.
          let t = type_of_rollback p s p.action_type c.count c.spec e in
          (t, rollback_bounds s (rw (t, validate_fields, e) at c.fields)));
      request =
          λ verb stdin dry_run timeout. request_of p.target verb stdin dry_run timeout c.target;
    }
