-- ===== src/Remediate/Guard/Runs/Dispatch.antt =====
-- guard.go: what has been checked when a request is handed to an executor.
use tracing_bot.Prelude.{
  OnSome, OnSome-intro, some_inj, ◌<◌, String, ◌≡◌, refl, sym, ap, subst, ◌∙◌, ◌⊎◌, inl, inr, false,
  some, List, ◌∷◌, arith, Bool-cases, Option-cases, leb,
}
use tracing_bot.Prelude.Assoc.{lookup}
use tracing_bot.Remediate.Types.{
  OnOk, OnOk-intro, TenantId, ActionTarget, Action, approved, executing, state_eq, Snapshot, Policy,
  Subject, ok, Result, Result-cases, Request,
}
use tracing_bot.Remediate.Validate.{check_allowlists}
use tracing_bot.Remediate.Executor.{verb_for_action}
use tracing_bot.Remediate.Guard.State.{
  Deps, Guard, get, get_policy, audit, check_idempotency, action_ref, IdemCheck-cases,
}
use tracing_bot.Remediate.Guard.Execute.{
  execute_run, execute_snapshot, execute_allowed, execute_resolved, retarget, is_replaced,
  execute_fresh, execute,
}
use tracing_bot.Remediate.Guard.Runs.{get-eq-ok}
use tracing_bot.Remediate.Guard.Runs.Sends.{
  Sends, quiet, sent, Sends-map, IsPrepared, Follows, payload-Sends,
}

module _ (d : Deps) (tid : TenantId) (id : String) (by : Subject) (idem : String) where
  -- What holds of the action that is sent, by how far `Execute` has come with `a`.
  abbrev AfterRun : Action → Action → Request → Type 0
  AfterRun a x r =
      IsPrepared d x r × Follows a x × (x.proposal ≡ a.proposal) × (x.pre_snapshot ≡ a.pre_snapshot)

  to_after_run :
      (a y x : Action) (r : Request)
      → Follows a y
      → y.proposal ≡ a.proposal
      → y.pre_snapshot ≡ a.pre_snapshot
      → (x ≡ y) × IsPrepared d x r
      → AfterRun a x r
  to_after_run a y x r f p s h = (
    h.1,
    subst (Follows a) (sym h.0) f,
    ap (λ (z : Action). z.proposal) h.0 ∙ p,
    ap (λ (z : Action). z.pre_snapshot) h.0 ∙ s,
  )

  run-Sends :
      (g : Guard) (a : Action)
      → Sends (AfterRun a) g.calls (execute_run d g tid id by idem a).0.calls
  unfolding execute_run audit
  run-Sends g a = elim (Option-cases (d.executors a.executor_kind)) [
    | inl missing ↦ quiet (rw (missing, execute_run))
    | inr (exec, e) ↦ elim (Result-cases (verb_for_action a.proposal.action_type)) [
      | inr (x, v) ↦ quiet (rw (e, execute_run, v))
      | inl (verb, v) ↦
          let y : Action = record a { state = executing; updated_at = d.now 0 } in
          rw (e, execute_run, v)
            (Sends-map (λ x r. (x ≡ y) × IsPrepared d x r) (AfterRun a)
              (λ x r. to_after_run a y x r (ground arith) refl refl)
              (payload-Sends d tid id by idem _ y exec verb v))
    ]
  ]

  -- The snapshot was taken of the target, where a `Snapshotter` is configured.
  abbrev Taken : Action → Type 0
  Taken x =
      (take : TenantId → ActionTarget → Result Snapshot)
      → d.snapshot ≡ some take
      → take tid x.proposal.target ≡ ok x.pre_snapshot

  abbrev AfterSnapshot : Action → Action → Request → Type 0
  AfterSnapshot a x r = IsPrepared d x r × Follows a x × (x.proposal ≡ a.proposal) × Taken x

  follows :
      (b a x : Action)
      → b.approved_by ≡ a.approved_by
      → b.proposed_by ≡ a.proposed_by
      → b.proposal.action_type ≡ a.proposal.action_type
      → b.executor_kind ≡ a.executor_kind
      → Follows b x
      → Follows a x
  follows b a x s t u v f = record {
    approver = f.approver ∙ s;
    proposer = f.proposer ∙ t;
    type_kept = f.type_kept ∙ u;
    executor = f.executor ∙ v;
  }

  taken :
      (a x : Action) (take : TenantId → ActionTarget → Result Snapshot) (snap : Snapshot)
      → d.snapshot ≡ some take
      → take tid a.proposal.target ≡ ok snap
      → x.proposal ≡ a.proposal
      → x.pre_snapshot ≡ snap
      → Taken x
  taken a x take snap e s q t take' e' =
      let same : take' ≡ take = some_inj (sym e' ∙ e) in rw (same, q, t) s

  snapshot-Sends :
      (g : Guard) (a : Action)
      → Sends (AfterSnapshot a) g.calls (execute_snapshot d g tid id by idem a).0.calls
  unfolding execute_snapshot audit
  snapshot-Sends g a = elim (Option-cases d.snapshot) [
    | inl missing ↦
        simp (missing, execute_snapshot)
          (Sends-map (AfterRun a) (AfterSnapshot a) (λ x r (p, f, q, s). (p, f, q, λ take e. cc))
            (run-Sends g a))
    | inr (take, e) ↦ elim (Result-cases (take tid a.proposal.target)) [
      | inr (y, s) ↦ quiet (simp (e, execute_snapshot, s))
      | inl (snap, s) ↦
          simp (e, execute_snapshot, s)
            (Sends-map (AfterRun (record a { pre_snapshot = snap })) (AfterSnapshot a)
              (λ x r (p, f, q, t). (
                p,
                follows (record a { pre_snapshot = snap }) a x refl refl refl refl f,
                q,
                taken a x take snap e s q t,
              ))
              (run-Sends g (record a { pre_snapshot = snap })))
    ]
  ]

  -- Every policy that can be read for the tenant allows the target.
  abbrev Allowed : Guard → Action → Type 0
  Allowed g x =
      (pol : Policy)
      → get_policy d g tid ≡ ok pol
      → check_allowlists d.path_match x.proposal pol ≡ ok tt

  abbrev AfterAllowed : Guard → Action → Action → Request → Type 0
  AfterAllowed g a x r =
      IsPrepared d x r × Follows a x × (x.proposal ≡ a.proposal) × Taken x × Allowed g x

  allowed-Sends :
      (g : Guard) (a : Action)
      → Sends (AfterAllowed g a) g.calls (execute_allowed d g tid id by idem a).0.calls
  unfolding execute_allowed audit
  allowed-Sends g a = elim (Result-cases (get_policy d g tid)) [
    | inr (y, q) ↦
        rw (q, execute_allowed)
          (Sends-map (AfterSnapshot a) (AfterAllowed g a)
            (λ x r (p, f, e, t). (p, f, e, t, λ pol q'. cc)) (snapshot-Sends g a))
    | inl (pol, q) ↦ elim (Result-cases (check_allowlists d.path_match a.proposal pol)) [
      | inr (y, c) ↦ quiet (rw (q, execute_allowed, c))
      | inl (u, c) ↦
          rw (q, execute_allowed, c)
            (Sends-map (AfterSnapshot a) (AfterAllowed g a)
              (λ x r (p, f, e, t).
                (p, f, e, t, λ pol' q'. let same : pol' ≡ pol = cc in rw (same, e) c))
              (snapshot-Sends g a))
    ]
  ]

  -- Where a resolver is configured, the target is what it gave, and the object is the proposal's.
  abbrev Resolved : Action → Action → Type 0
  Resolved a x =
      (resolve : TenantId → ActionTarget → Result ActionTarget)
      → d.resolver ≡ some resolve
      → (resolve tid a.proposal.target ≡ ok x.proposal.target)
        × (is_replaced a x.proposal.target ≡ false)

  abbrev AfterResolved : Guard → Action → Action → Request → Type 0
  AfterResolved g a x r = IsPrepared d x r × Follows a x × Resolved a x × Taken x × Allowed g x

  resolved :
      (a x : Action) (resolve : TenantId → ActionTarget → Result ActionTarget) (t : ActionTarget)
      → d.resolver ≡ some resolve
      → resolve tid a.proposal.target ≡ ok t
      → is_replaced a t ≡ false
      → x.proposal ≡ (retarget a t).proposal
      → Resolved a x
  resolved a x resolve t e s n q resolve' e' =
      let same : resolve' ≡ resolve = some_inj (sym e' ∙ e) in rw (same, q) (s, n)

  resolved-Sends :
      (g : Guard) (a : Action)
      → Sends (AfterResolved g a) g.calls (execute_resolved d g tid id by idem a).0.calls
  unfolding execute_resolved audit
  resolved-Sends g a = elim (Option-cases d.resolver) [
    | inl missing ↦
        simp (missing, execute_resolved)
          (Sends-map (AfterAllowed g a) (AfterResolved g a)
            (λ x r (p, f, q, t, w). (p, f, λ resolve e. cc, t, w)) (allowed-Sends g a))
    | inr (resolve, e) ↦ elim (Result-cases (resolve tid a.proposal.target)) [
      | inr (y, s) ↦ quiet (simp (e, execute_resolved, s))
      | inl (t, s) ↦ elim (Bool-cases (is_replaced a t)) [
        | inl other ↦ quiet (simp (e, execute_resolved, s, other))
        | inr same ↦
            simp (e, execute_resolved, s, same)
              (Sends-map (AfterAllowed g (retarget a t)) (AfterResolved g a)
                (λ x r (p, f, q, k, w). (
                  p,
                  follows (retarget a t) a x refl refl refl refl f,
                  resolved a x resolve t e s same q,
                  k,
                  w,
                ))
                (allowed-Sends g (retarget a t)))
      ]
    ]
  ]

  -- All that has been checked of the stored action `a` when a request is made for its version `x`.
  pub record IsAuthorized (g : Guard) (a x : Action) (r : Request) : Type 0 where
    pub found : lookup id g.actions ≡ some a
    pub owner : a.tenant ≡ tid
    pub state : a.state ≡ approved
    pub in_time : d.now 0 < a.expires_at
    pub prepared : IsPrepared d x r
    pub follows : Follows a x
    pub target : OnSome d.resolver (λ resolve.
        (resolve tid a.proposal.target ≡ ok x.proposal.target)
        × (is_replaced a x.proposal.target ≡ false))
    pub snapshot : OnSome d.snapshot (λ take. take tid x.proposal.target ≡ ok x.pre_snapshot)
    pub allowed :
        OnOk (get_policy d g tid) (λ pol. check_allowlists d.path_match x.proposal pol ≡ ok tt)

  fresh-Sends :
      (g : Guard) (a : Action)
      → lookup id g.actions ≡ some a
      → a.tenant ≡ tid
      → Sends (IsAuthorized g a) g.calls (execute_fresh d g tid id by idem a).0.calls
  unfolding execute_fresh audit
  fresh-Sends g a l o = elim (Bool-cases (state_eq a.state approved)) [
    | inr not_approved ↦ quiet (rw (not_approved, execute_fresh))
    | inl is_approved ↦ elim (Bool-cases (leb a.expires_at (d.now 0))) [
      | inl late ↦ quiet (rw (is_approved, execute_fresh, late))
      | inr early ↦
          rw (is_approved, execute_fresh, early)
            (Sends-map (AfterResolved g a) (IsAuthorized g a)
              (λ x r (p, f, q, t, w). record {
                found = l;
                owner = o;
                state = ground arith;
                in_time = ground arith;
                prepared = p;
                follows = f;
                target = OnSome-intro d.resolver _ q;
                snapshot = OnSome-intro d.snapshot _ t;
                allowed = OnOk-intro (get_policy d g tid) _ w;
              })
              (resolved-Sends g a))
    ]
  ]

-- The requests are left alone, or one more was authorized.
abbrev pub Dispatches :
    Deps → TenantId → String → Subject → String → Guard → List (Action × Request) → Type 0
Dispatches d tid id by idem g l =
    (l ≡ g.calls)
    ⊎ ((a x : Action) × (r : Request) × IsAuthorized d tid id by idem g a x r
        × (l ≡ (x, r) ∷ g.calls))

to_sum :
    (d : Deps) (tid : TenantId) (id : String) (by : Subject) (idem : String) (g : Guard)
    (a : Action) (l : List (Action × Request))
    → Sends (IsAuthorized d tid id by idem g a) g.calls l
    → Dispatches d tid id by idem g l
to_sum d tid id by idem g a l (quiet e) = inl e
to_sum d tid id by idem g a l (sent x r p e) = inr (a, x, r, p, e)

-- `Execute` hands at most one request to an executor, and then the stored action was approved and
-- not expired; the resolver, where there is one, gave the target and it is the object of the
-- proposal; the allowlists of the policy, where it could be read, allow the target; the snapshot,
-- where a `Snapshotter` is configured, was taken of the target; and the request is the one of the
-- action's type and target, with a payload in scope.
pub execute-Dispatches :
    (d : Deps) (tid : TenantId) (id : String) (by : Subject) (idem : String) (g : Guard)
    → Dispatches d tid id by idem g (execute d g tid id by idem).0.calls
unfolding execute
execute-Dispatches d tid id by idem g = elim (Result-cases (get g tid id)) [
  | inr (y, e) ↦ inl (rw (e, execute))
  | inl (a, e) ↦ elim (IdemCheck-cases (check_idempotency d g tid "execute" idem (action_ref id))) [
    | inr (inl (c, i)) ↦ inl (rw (e, execute, i))
    | inr (inr (y, i)) ↦ inl (rw (e, execute, i))
    | inl i ↦
        rw (e, execute, i)
          (to_sum d tid id by idem g a _
            (fresh-Sends d tid id by idem g a (get-eq-ok g tid id e).0 (get-eq-ok g tid id e).1))
  ]
]
