-- ===== src/Remediate/Guard/Runs/StateMachine.antt =====
-- guard.go: the life of one action over every run.
use mathlib.Core.Option
use tracing_bot.Prelude.{
  some_inj, String, ◌≡◌, refl, sym, ap, ◌∙◌, subst, ◌⊎◌, inl, inr, Bool, true, false, none, some,
  str_eq, eq_iff, arith, Bool-cases, Option-cases, if◌then◌else◌,
}
use tracing_bot.Prelude.Assoc.{Assoc, lookup, lookup-put, lookup-map_values}
use tracing_bot.Remediate.Types.{
  Time, ActionState, Action, proposed, rejected, expired, succeeded, rolled_back,
}
use tracing_bot.Remediate.Guard.State.{Deps, Guard, GuardConfig}
use tracing_bot.Remediate.Guard.Queries.{expire_action, is_due}
use tracing_bot.Remediate.Guard.Transitions.{edge, IsStep}
use tracing_bot.Remediate.Guard.Runs.{
  Call, apply, Reach, here, next, Change, kept, moved, opened, swept, apply-Change,
}
use tracing_bot.Remediate.Guard.Runs.Budget.{expire_all-map_values}

-- No call reuses the id of an action: `nextID` draws it from a hash of a counter and the time.
abbrev pub HasFreshId : Deps → Guard → Type 0
HasFreshId d g = lookup (d.action_id g.seq) g.actions ≡ none

expired-IsStep :
    (d : Deps) (cfg : GuardConfig) (now : Time) (a : Action)
    → is_due cfg now a ≡ true
    → IsStep d a (record a { state = expired; updated_at = now })
expired-IsStep d cfg now a h = ground arith

expire_action-IsStep :
    (d : Deps) (cfg : GuardConfig) (now : Time) (a : Action)
    → (expire_action cfg now a ≡ a) ⊎ IsStep d a (expire_action cfg now a)
unfolding expire_action
expire_action-IsStep d cfg now a = elim (Bool-cases (is_due cfg now a)) [
  | inl due ↦ inr (rw (expire_action, due) (expired-IsStep d cfg now a due))
  | inr early ↦ inl (rw (expire_action, early))
]

same_key : (m : Assoc Action) (j id : String) → str_eq j id ≡ true → lookup j m ≡ lookup id m
same_key m j id same = ap (λ k. lookup k m) ((eq_iff j id).0 same)

same_value :
    (m : Assoc Action) (j id : String) (x a : Action)
    → str_eq j id ≡ true
    → lookup j m ≡ some x
    → lookup id m ≡ some a
    → x ≡ a
same_value m j id x a same l' l = some_inj (sym l' ∙ same_key m j id same ∙ l)

Change-action :
    (d : Deps) (g : Guard) (m : Assoc Action) (id : String) (a : Action)
    → HasFreshId d g
    → lookup id g.actions ≡ some a
    → Change d g m
    → (b : Action) × (lookup id m ≡ some b) × ((b ≡ a) ⊎ IsStep d a b)
Change-action d g m id a f l (kept e) = (a, rw e l, inl refl)
Change-action d g m id a f l (moved j x b l' s e) = elim (Bool-cases (str_eq j id)) [
  | inl same ↦ (
    b,
    rw (e, lookup-put, same),
    inr (subst (λ y. IsStep d y b) (same_value g.actions j id x a same l' l) s),
  )
  | inr differ ↦ (a, rw (e, lookup-put, differ) l, inl refl)
]
Change-action d g m id a f l (opened tid p b o e) =
    elim (Bool-cases (str_eq (d.action_id g.seq) id)) [
      | inl same ↦ cc (same_key g.actions (d.action_id g.seq) id same)
      | inr differ ↦ (a, rw (e, lookup-put, differ) l, inl refl)
    ]
Change-action d g m id a f l (swept now e) = (
  expire_action g.cfg now a,
  rw (e, expire_all-map_values, lookup-map_values, l),
  expire_action-IsStep d g.cfg now a,
)

-- An action that is present stays present, and is left alone or takes one step of the machine.
pub apply_action :
    (d : Deps) (g : Guard) (c : Call) (id : String) (a : Action)
    → HasFreshId d g
    → lookup id g.actions ≡ some a
    → (b : Action) × (lookup id (apply d g c).actions ≡ some b) × ((b ≡ a) ⊎ IsStep d a b)
apply_action d g c id a f l = Change-action d g (apply d g c).actions id a f l (apply-Change d g c)

-- The states that have no transition out of them.
abbrev pub is_terminal : ActionState → Bool
is_terminal rejected = true
is_terminal expired = true
is_terminal succeeded = true
is_terminal rolled_back = true
is_terminal _ = false

terminal_edge : (s t : ActionState) → is_terminal s ≡ true → edge s t ≡ false
terminal_edge s t h = ground arith

-- Once an action is rejected, expired, succeeded or rolled back, no calls change it, as long as no
-- call reuses an id.
pub lookup-Reach_terminal :
    (g : Guard) (id : String) (a : Action) (h : Guard)
    → lookup id g.actions ≡ some a
    → is_terminal a.state ≡ true
    → Reach HasFreshId g h
    → lookup id h.actions ≡ some a
lookup-Reach_terminal g id a h l t here = l
lookup-Reach_terminal g id a h l t (next {h = k} r d c p) =
    let (b, l', change) = apply_action d k c id a p (lookup-Reach_terminal g id a k l t r) in
    elim change [
      | inl same ↦ l' ∙ ap some same
      | inr s ↦ cc (s.edges, terminal_edge a.state b.state t)
    ]

-- Where an action after a call comes from: it is new, or it was there.
pub Change-origin :
    (d : Deps) (g : Guard) (m : Assoc Action) (id : String) (b : Action)
    → lookup id m ≡ some b
    → Change d g m
    → (b.state ≡ proposed)
      ⊎ ((a : Action) × (lookup id g.actions ≡ some a) × ((b ≡ a) ⊎ IsStep d a b))
Change-origin d g m id b l (kept e) = inr (b, rw e at l, inl refl)
Change-origin d g m id b l (moved j x y l' s e) =
    let now : (if str_eq j id then some y else lookup id g.actions) ≡ some b =
      rw (e, lookup-put) at l in
    elim (Bool-cases (str_eq j id)) [
      | inl same ↦ inr (
        x,
        sym (same_key g.actions j id same) ∙ l',
        inr (subst (IsStep d x) (some_inj (rw same at now)) s),
      )
      | inr differ ↦ inr (b, rw differ at now, inl refl)
    ]
Change-origin d g m id b l (opened tid p y o e) =
    let now : (if str_eq (d.action_id g.seq) id then some y else lookup id g.actions) ≡ some b =
      rw (e, lookup-put) at l in
    elim (Bool-cases (str_eq (d.action_id g.seq) id)) [
      | inl same ↦ inl (ap (λ (x : Action). x.state) (sym (some_inj (rw same at now))) ∙ o.state)
      | inr differ ↦ inr (b, rw differ at now, inl refl)
    ]
Change-origin d g m id b l (swept now e) =
    let then' : Option.map (expire_action g.cfg now) (lookup id g.actions) ≡ some b =
      rw (e, expire_all-map_values, lookup-map_values) at l in
    elim (Option-cases (lookup id g.actions)) [
      | inl missing ↦ cc (rw missing at then')
      | inr (a, found) ↦ inr (
        a,
        found,
        subst (λ y. (y ≡ a) ⊎ IsStep d a y) (some_inj (rw found at then'))
            (expire_action-IsStep d g.cfg now a),
      )
    ]
