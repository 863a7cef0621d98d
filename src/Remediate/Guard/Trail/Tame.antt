-- ===== src/Remediate/Guard/Trail/Tame.antt =====
-- guard.go: the calls besides Approve, of which none moves an action past its approval.
use tracing_bot.Prelude.{
  String, ◌≡◌, sym, ap, subst, ◌∙◌, ◌⊎◌, inl, inr, true, false, some, str_eq, if◌then◌else◌, eq_iff,
  arith, Bool-cases, some_inj, ◌||◌,
}
use tracing_bot.Prelude.Assoc.{Assoc, lookup, put, lookup-put, lookup-map_values}
use tracing_bot.Remediate.Types.{
  Time, TenantId, ActionProposal, approved, verifying, failed, state_eq, Action, Subject,
  illegal_transition, Result-cases,
}
use tracing_bot.Remediate.Guard.State.{
  action_ref, Deps, GuardConfig, Guard, Reply, done, refused, stopped, audit, IdemCheck-cases,
  check_idempotency, get,
}
use tracing_bot.Remediate.Guard.Propose.{propose}
use tracing_bot.Remediate.Guard.Approve.{reject_found, reject}
use tracing_bot.Remediate.Guard.Execute.{execute, execute_fresh}
use tracing_bot.Remediate.Guard.Settle.{
  settle, verify_result, verify, verify_found, rollback, rollback_found,
}
use tracing_bot.Remediate.Guard.Queries.{expire_all, expire_action}
use tracing_bot.Remediate.Guard.Transitions.{after}
use tracing_bot.Remediate.Guard.Transitions.Approvals.{reject_found-after}
use tracing_bot.Remediate.Guard.Transitions.Executions.{execute_fresh-after}
use tracing_bot.Remediate.Guard.Transitions.Proposals.{propose-Opens}
use tracing_bot.Remediate.Guard.Transitions.Settlements.{rollback_found-after}
use tracing_bot.Remediate.Guard.Runs.Budget.{expire_all-map_values}
use tracing_bot.Remediate.Guard.Runs.{get-eq-ok}
use tracing_bot.Remediate.Guard.Runs.TwoPerson.{is_cleared}

-- A write that clears no action: it writes one that is not cleared, or over one that was.
abbrev pub IsTame : Guard → Assoc Action → Type 0
IsTame g m =
    (m ≡ g.actions)
    ⊎ ((j : String) × (y : Action) × (m ≡ put j y g.actions)
        × ((is_cleared y.state ≡ false)
            ⊎ ((a : Action) × (lookup j g.actions ≡ some a) × (is_cleared a.state ≡ true))))

pub IsTame-lookup :
    (g : Guard) (m : Assoc Action) (id : String) (x b : Action)
    → IsTame g m
    → lookup id g.actions ≡ some x
    → is_cleared x.state ≡ false
    → lookup id m ≡ some b
    → is_cleared b.state ≡ false
IsTame-lookup g m id x b (inl same) l c l' =
    subst (λ (y : Action). is_cleared y.state ≡ false) (some_inj (sym l ∙ rw same at l')) c
IsTame-lookup g m id x b (inr (j, y, e, w)) l c l' =
    let now : (if str_eq j id then some y else lookup id g.actions) ≡ some b =
      rw (e, lookup-put) at l' in
    elim (Bool-cases (str_eq j id)) [
      | inr differ ↦
          subst (λ (z : Action). is_cleared z.state ≡ false) (some_inj (sym l ∙ rw differ at now)) c
      | inl same ↦
          let here' : y ≡ b = some_inj (rw same at now) in
          elim w [
            | inl dull ↦ subst (λ (z : Action). is_cleared z.state ≡ false) here' dull
            | inr (a, la, ca) ↦
                let one : a ≡ x =
                  some_inj (sym la ∙ ap (λ k. lookup k g.actions) ((eq_iff j id).0 same) ∙ l) in
                cc (one, ca, c)
          ]
    ]

after-IsTame :
    (g : Guard) (j : String) (a : Action) (r : Reply) (m : Assoc Action)
    → lookup j g.actions ≡ some a
    → is_cleared a.state ≡ true
    → m ≡ after j r g.actions
    → IsTame g m
after-IsTame g j a (done b) m l c e = inr (j, b, e, inr (a, l, c))
after-IsTame g j a (stopped b x) m l c e = inr (j, b, e, inr (a, l, c))
after-IsTame g j a (refused x) m l c e = inl e

-- The action of a reply is not cleared.
abbrev Shows : Reply → Type 0
Shows (done b) = is_cleared b.state ≡ false
Shows (stopped b e) = is_cleared b.state ≡ false
Shows (refused e) = Unit

Shows-IsTame :
    (g : Guard) (j : String) (r : Reply) (m : Assoc Action)
    → Shows r
    → m ≡ after j r g.actions
    → IsTame g m
Shows-IsTame g j (done b) m s e = inr (j, b, e, inl s)
Shows-IsTame g j (stopped b x) m s e = inr (j, b, e, inl s)
Shows-IsTame g j (refused x) m s e = inl e

reject_found-Shows :
    (d : Deps) (g : Guard) (tid : TenantId) (id : String) (by : Subject) (reason : String)
    (a : Action)
    → Shows (reject_found d g tid id by reason a).1
unfolding reject_found
reject_found-Shows d g tid id by reason a = ground arith

pub propose-IsTame :
    (d : Deps) (g : Guard) (tid : TenantId) (p : ActionProposal) (by : Subject) (idem : String)
    → IsTame g (propose d g tid p by idem).0.actions
propose-IsTame d g tid p by idem = elim (propose-Opens d g tid by idem p) [
  | inl same ↦ inl same
  | inr (b, o, e) ↦ inr (d.action_id g.seq, b, e, inl (ap (λ s. is_cleared s) o.state))
]

pub reject-IsTame :
    (d : Deps) (g : Guard) (tid : TenantId) (id : String) (by : Subject) (reason : String)
    → IsTame g (reject d g tid id by reason).0.actions
unfolding reject
reject-IsTame d g tid id by reason = elim (Result-cases (get g tid id)) [
  | inr (x, e) ↦ inl (rw (e, reject))
  | inl (a, e) ↦
      rw (e, reject)
        (Shows-IsTame g id _ _ (reject_found-Shows d g tid id by reason a)
          (reject_found-after d g tid id by reason a))
]

execute_fresh_refuses :
    (d : Deps) (g : Guard) (tid : TenantId) (id : String) (by : Subject) (idem : String)
    (a : Action)
    → state_eq a.state approved ≡ false
    → execute_fresh d g tid id by idem a ≡ (g, refused illegal_transition)
unfolding execute_fresh
execute_fresh_refuses d g tid id by idem a h = rw h

approved-cleared : (a : Action) → state_eq a.state approved ≡ true → is_cleared a.state ≡ true
approved-cleared a h = ground arith

execute_fresh-IsTame :
    (d : Deps) (g : Guard) (tid : TenantId) (id : String) (by : Subject) (idem : String)
    (a : Action)
    → lookup id g.actions ≡ some a
    → IsTame g (execute_fresh d g tid id by idem a).0.actions
execute_fresh-IsTame d g tid id by idem a l = elim (Bool-cases (state_eq a.state approved)) [
  | inl h ↦
      after-IsTame g id a _ _ l (approved-cleared a h) (execute_fresh-after d tid id by idem g a)
  | inr h ↦
      inl (ap (λ (r : Guard × Reply). r.0.actions) (execute_fresh_refuses d g tid id by idem a h))
]

pub execute-IsTame :
    (d : Deps) (g : Guard) (tid : TenantId) (id : String) (by : Subject) (idem : String)
    → IsTame g (execute d g tid id by idem).0.actions
unfolding execute
execute-IsTame d g tid id by idem = elim (Result-cases (get g tid id)) [
  | inr (x, e) ↦ inl (rw (e, execute))
  | inl (a, e) ↦ elim (IdemCheck-cases (check_idempotency d g tid "execute" idem (action_ref id))) [
    | inr (inl (c, i)) ↦ inl (rw (e, execute, i))
    | inr (inr (x, i)) ↦ inl (rw (e, execute, i))
    | inl i ↦
        rw (e, execute, i) (execute_fresh-IsTame d g tid id by idem a (get-eq-ok g tid id e).0)
  ]
]

verify_found-IsTame :
    (d : Deps) (g : Guard) (tid : TenantId) (id : String) (a : Action)
    → lookup id g.actions ≡ some a
    → IsTame g (verify_found d g tid id a).0.actions
unfolding verify_found audit
verify_found-IsTame d g tid id a l = elim (Bool-cases (state_eq a.state verifying)) [
  | inr h ↦ inl (rw h)
  | inl h ↦ inr (id, settle d a (verify_result d tid a), rw h, inr (a, l, ground arith))
]

pub verify-IsTame :
    (d : Deps) (g : Guard) (tid : TenantId) (id : String) → IsTame g (verify d g tid id).0.actions
unfolding verify
verify-IsTame d g tid id = elim (Result-cases (get g tid id)) [
  | inr (x, e) ↦ inl (rw (e, verify))
  | inl (a, e) ↦ rw (e, verify) (verify_found-IsTame d g tid id a (get-eq-ok g tid id e).0)
]

live-cleared :
    (a : Action)
    → state_eq a.state verifying || state_eq a.state failed ≡ true
    → is_cleared a.state ≡ true
live-cleared a h = ground arith

rollback_found_refuses :
    (d : Deps) (g : Guard) (tid : TenantId) (id : String) (by : Subject) (reason : String)
    (a : Action)
    → (state_eq a.state verifying || state_eq a.state failed) ≡ false
    → rollback_found d g tid id by reason a ≡ (g, refused illegal_transition)
unfolding rollback_found
rollback_found_refuses d g tid id by reason a h = ground arith

rollback_found-IsTame :
    (d : Deps) (g : Guard) (tid : TenantId) (id : String) (by : Subject) (reason : String)
    (a : Action)
    → lookup id g.actions ≡ some a
    → IsTame g (rollback_found d g tid id by reason a).0.actions
rollback_found-IsTame d g tid id by reason a l =
    elim (Bool-cases (state_eq a.state verifying || state_eq a.state failed)) [
      | inl h ↦
          after-IsTame g id a _ _ l (live-cleared a h) (rollback_found-after d g tid id by reason a)
      | inr h ↦ inl (
          ap (λ (r : Guard × Reply). r.0.actions) (rollback_found_refuses d g tid id by reason a h))
    ]

pub rollback-IsTame :
    (d : Deps) (g : Guard) (tid : TenantId) (id : String) (by : Subject) (reason : String)
    → IsTame g (rollback d g tid id by reason).0.actions
unfolding rollback
rollback-IsTame d g tid id by reason = elim (Result-cases (get g tid id)) [
  | inr (x, e) ↦ inl (rw (e, rollback))
  | inl (a, e) ↦
      rw (e, rollback) (rollback_found-IsTame d g tid id by reason a (get-eq-ok g tid id e).0)
]

expire_action_tame :
    (cfg : GuardConfig) (now : Time) (a : Action)
    → is_cleared a.state ≡ false
    → is_cleared (expire_action cfg now a).state ≡ false
unfolding expire_action
expire_action_tame cfg now a h = ground arith

pub expire_all_tame :
    (g : Guard) (now : Time) (id : String) (x b : Action)
    → lookup id g.actions ≡ some x
    → is_cleared x.state ≡ false
    → lookup id (expire_all g.cfg now g.actions) ≡ some b
    → is_cleared b.state ≡ false
expire_all_tame g now id x b l c l' =
    let then' : some (expire_action g.cfg now x) ≡ some b =
      rw (expire_all-map_values, lookup-map_values, l) at l' in
    subst (λ (y : Action). is_cleared y.state ≡ false) (some_inj then')
      (expire_action_tame g.cfg now x c)
