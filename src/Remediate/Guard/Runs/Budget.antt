-- ===== src/Remediate/Guard/Runs/Budget.antt =====
-- guard.go: the budget of an incident over every run.
use tracing_bot.Prelude.{
  ℕ, ◌+◌, ◌≤◌, String, ◌≡◌, refl, sym, ◌∙◌, inl, inr, true, false, some, [], ◌∷◌, eq_iff, arith,
  Bool-cases,
}
use tracing_bot.Prelude.Int.{ℤ, pos, ◌≤ℤ◌, leb_ℤ}
use tracing_bot.Prelude.Assoc.{
  Assoc, passes_le, lookup, put, count_if, count_if-put, passes, map_values, count_if-map_le,
}
use tracing_bot.Remediate.Types.{Time, TenantId, ActionProposal, Action, Policy, expired, ok}
use tracing_bot.Remediate.Guard.State.{
  Deps, Guard, GuardConfig, new_guard, counts, budget_used, budget_cap, get_policy,
}
use tracing_bot.Remediate.Guard.Queries.{expire_all, expire_action, is_due}
use tracing_bot.Remediate.Guard.Transitions.{IsStep}
use tracing_bot.Remediate.Guard.Transitions.Proposals.{IsOpened}
use tracing_bot.Remediate.Guard.Runs.{
  apply, Reach, here, next, Change, kept, moved, opened, swept, apply-Change,
}

budget_used-count_if :
    (tid : TenantId) (inc : String) (m : Assoc Action)
    → budget_used tid inc m ≡ count_if (counts tid inc) m
unfolding budget_used count_if
budget_used-count_if tid inc [] = refl
budget_used-count_if tid inc ((k, a) ∷ rest) = rw (budget_used-count_if tid inc rest)

-- A write to the map moves the count by the old and the new action.
budget_used-put :
    (tid : TenantId) (inc id : String) (b : Action) (m : Assoc Action)
    → budget_used tid inc (put id b m) + passes (counts tid inc) (lookup id m)
      ≡ budget_used tid inc m + passes (counts tid inc) (some b)
budget_used-put tid inc id b m = simp budget_used-count_if (count_if-put (counts tid inc) id b m)

-- A step never makes an action count that did not.
counts-IsStep :
    (d : Deps) (tid : TenantId) (inc : String) {a b : Action}
    → IsStep d a b
    → passes (counts tid inc) (some b) ≤ passes (counts tid inc) (some a)
counts-IsStep d tid inc {a} {b} s = ground arith

pub expire_all-map_values :
    (cfg : GuardConfig) (now : Time) (m : Assoc Action)
    → expire_all cfg now m ≡ map_values (expire_action cfg now) m
unfolding expire_all map_values
expire_all-map_values cfg now [] = refl
expire_all-map_values cfg now ((k, a) ∷ rest) = rw (expire_all-map_values cfg now rest)

counts_expired :
    (tid : TenantId) (inc : String) (now : Time) (a : Action)
    → counts tid inc (record a { state = expired; updated_at = now }) ≡ false
counts_expired tid inc now a = ground arith

counts-expire_action :
    (tid : TenantId) (inc : String) (cfg : GuardConfig) (now : Time) (a : Action)
    → counts tid inc (expire_action cfg now a) ≡ true
    → counts tid inc a ≡ true
unfolding expire_action
counts-expire_action tid inc cfg now a h = elim (Bool-cases (is_due cfg now a)) [
  | inl due ↦ let h' = rw (expire_action, due) at h in cc (counts_expired tid inc now a)
  | inr early ↦ rw (expire_action, early) at h
]

budget_used-expire_all :
    (tid : TenantId) (inc : String) (cfg : GuardConfig) (now : Time) (m : Assoc Action)
    → budget_used tid inc (expire_all cfg now m) ≤ budget_used tid inc m
budget_used-expire_all tid inc cfg now m =
    simp (budget_used-count_if, expire_all-map_values)
      (count_if-map_le (counts tid inc) (expire_action cfg now) m
        (counts-expire_action tid inc cfg now))

-- The policy that a call reads for a tenant grants at most `limit` actions for each incident.
abbrev pub InBudget : TenantId → ℤ → Deps → Guard → Type 0
InBudget tid limit d g = (pol : Policy) → get_policy d g tid ≡ ok pol → budget_cap g pol ≤ℤ limit

counts_own :
    (tid : TenantId) (inc : String) (a : Action)
    → counts tid inc a ≡ true
    → (a.tenant ≡ tid) × (a.incident_id ≡ inc)
counts_own tid inc a h = ground (arith, eq_iff a.tenant tid, eq_iff a.incident_id inc)

room_for_one :
    (c limit : ℤ) (n k : ℕ) → leb_ℤ c (pos n) ≡ false → c ≤ℤ limit → k ≤ n + 1 → pos k ≤ℤ limit
room_for_one c limit n k room fits h = ground arith

-- An action that `Propose` opens had room in its own incident, and is not of any other.
opened_in_budget :
    (d : Deps) (g : Guard) (tid : TenantId) (inc : String) (limit : ℤ)
    → InBudget tid limit d g
    → pos (budget_used tid inc g.actions) ≤ℤ limit
    → (tid' : TenantId) (p : ActionProposal) (b : Action) → IsOpened d g tid' p b
    → pos (budget_used tid inc (put (d.action_id g.seq) b g.actions)) ≤ℤ limit
opened_in_budget d g tid inc limit in_budget h tid' p b o = elim (Bool-cases (counts tid inc b)) [
  | inr other_incident ↦
      ground (arith, other_incident, budget_used-put tid inc (d.action_id g.seq) b g.actions)
  | inl same ↦
      let (owner, incident) = counts_own tid inc b same in
      let t : tid' ≡ tid = sym o.tenant ∙ owner in
      let room = rw (incident, t) at o.room in
      let fits = in_budget o.policy (rw t at o.read) in
      room_for_one (budget_cap g o.policy) limit _ _ room fits (
        omega (
          arith,
          budget_used-put tid inc (d.action_id g.seq) b g.actions,
          passes_le (counts tid inc) (some b),
        ))
]

change_in_budget :
    (d : Deps) (g : Guard) (m : Assoc Action) (tid : TenantId) (inc : String) (limit : ℤ)
    → InBudget tid limit d g
    → pos (budget_used tid inc g.actions) ≤ℤ limit
    → Change d g m
    → pos (budget_used tid inc m) ≤ℤ limit
change_in_budget d g m tid inc limit p h (kept e) = rw e h
change_in_budget d g m tid inc limit p h (moved id a b l s e) =
    rw e (ground (arith, budget_used-put tid inc id b g.actions, counts-IsStep d tid inc s))
change_in_budget d g m tid inc limit p h (opened tid' q b o e) =
    rw e (opened_in_budget d g tid inc limit p h tid' q b o)
change_in_budget d g m tid inc limit p h (swept now e) =
    rw e (omega (arith, budget_used-expire_all tid inc g.cfg now g.actions))

-- If every call's policy grants an incident at most `limit` actions, then after any calls, approvals with
-- a budget override among them, at most `limit` actions of the incident are neither rejected nor expired.
pub budget_used-Reach :
    (cfg : GuardConfig) (tid : TenantId) (inc : String) (limit : ℤ) (g : Guard)
    → pos 0 ≤ℤ limit
    → Reach (InBudget tid limit) (new_guard cfg) g
    → pos (budget_used tid inc g.actions) ≤ℤ limit
unfolding new_guard budget_used
budget_used-Reach cfg tid inc limit g z here = z
budget_used-Reach cfg tid inc limit g z (next {h} r d c p) =
    change_in_budget d h (apply d h c).actions tid inc limit p
      (budget_used-Reach cfg tid inc limit h z r) (apply-Change d h c)
