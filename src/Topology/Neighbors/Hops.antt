-- ===== src/Topology/Neighbors/Hops.antt =====
-- The hops that `Neighbors` gives to the services are distances.
use tracing_bot.Prelude.{
  ℕ, zero, suc, ◌+◌, ◌<◌, ◌≤◌, String, some, List, [], ◌∷◌, ◌≡◌, arith, ◌⊎◌, inl, inr, eq_iff,
  subst, sym, ◌∙◌, some_inj,
}
use mathlib.Core.List.{Memᴰ}
use mathlib.Core.List.Memᴰ
use text.Mathlib.TextPositions.{eq_refl}
use tracing_bot.Prelude.Assoc.{Assoc, lookup}
use tracing_bot.Prelude.Table.{Table}
use tracing_bot.Topology.Types.{Direction, Edge, EdgeKey}
use tracing_bot.Topology.Neighbors.{Visit, visit_frontier, levels, first_visit, neighbors}
use tracing_bot.Topology.Neighbors.Visits.{visit_frontier-Visits}
use tracing_bot.Topology.Neighbors.Walks.{Link, Walk, here, then, IsVisited, Grows}

-- After the level `h`, with the services of that level as the frontier.
record IsLevel (edges : Table EdgeKey Edge) (tid : String) (dir : Direction) (from : String) (h : ℕ)
    (frontier : List String) (v : Visit) : Type 0 where
  sound : (t : String) (k : ℕ) → lookup t v.visited ≡ some k → (k ≤ h) × Walk edges tid dir from k t
  front : (t : String) → Memᴰ t frontier → Walk edges tid dir from h t
  last : (t : String) → lookup t v.visited ≡ some h → Memᴰ t frontier
  closed :
      (s t : String) (k : ℕ)
      → lookup s v.visited ≡ some k
      → k < h
      → Link edges tid dir s t
      → (j : ℕ) × (lookup t v.visited ≡ some j) × (j ≤ k + 1)
  root : lookup from v.visited ≡ some 0

module _ (edges : Table EdgeKey Edge) (tid : String) (dir : Direction) (from : String) where
  lookup-first :
      (t : String) (k : ℕ) → lookup t (first_visit from).visited ≡ some k → (t ≡ from) × (k ≡ 0)
  unfolding lookup
  lookup-first t k e = (ground (arith, eq_iff from t), ground (arith, eq_iff from t))

  Walk-none : (t : String) → t ≡ from → Walk edges tid dir from 0 t
  Walk-none t e = subst (Walk edges tid dir from 0) (sym e) here

  IsLevel-first : IsLevel edges tid dir from 0 (from ∷ []) (first_visit from)
  unfolding lookup
  IsLevel-first = record {
    sound = λ t k e.
        let (a, b) = lookup-first t k e in
        (omega arith, subst (λ n. Walk edges tid dir from n t) (sym b) (Walk-none t a));
    front = λ t m. Walk-none t (Memᴰ.eq_of_singleton m);
    last = λ t e. Memᴰ.head (lookup-first t 0 e).0;
    closed = λ s t k e less l. absurd (omega arith);
    root = ground (arith, eq_refl from);
  }

  ℕ-lt_or_eq : (k h : ℕ) → k ≤ h → (k < h) ⊎ (k ≡ h)
  ℕ-lt_or_eq k h le = omega arith

  -- No service at the last level: there is none at the next.
  IsLevel-idle :
      (h : ℕ) (v : Visit)
      → IsLevel edges tid dir from h [] v
      → IsLevel edges tid dir from (h + 1) [] v
  IsLevel-idle h v i = record {
    sound = λ t k e. (omega (arith, (i.sound t k e).0), (i.sound t k e).1);
    front = λ t m. absurd (Memᴰ.not-nil m);
    last = λ t e. absurd (omega (arith, (i.sound t (h + 1) e).0));
    closed = λ s t k e less l. elim (ℕ-lt_or_eq k h (omega arith)) [
      | inl a ↦ i.closed s t k e a l
      | inr same ↦
          absurd (Memᴰ.not-nil (i.last s (subst (λ n. lookup s v.visited ≡ some n) same e)))
    ];
    root = i.root;
  }

  IsLevel-step :
      (h : ℕ) (frontier : List String) (v w : Visit)
      → IsLevel edges tid dir from h frontier v
      → Grows (Walk edges tid dir from (h + 1)) (h + 1) (record v { next = [] }) w
      → ((s t : String) → Memᴰ s frontier → Link edges tid dir s t → IsVisited t w)
      → IsLevel edges tid dir from (h + 1) w.next w
  IsLevel-step h frontier v w i g seen = record {
    sound = sound;
    front = walk;
    last = λ t e. elim (g.fresh t (h + 1) e) [
      | inl old ↦ absurd (omega (arith, (i.sound t (h + 1) old).0))
      | inr (q, m) ↦ m
    ];
    closed = λ s t k e less l. elim (g.fresh s k e) [
      | inr (q, m) ↦ absurd (omega arith)
      | inl old ↦ elim (ℕ-lt_or_eq k h (omega arith)) [
        | inl a ↦ let (j, f, le) = i.closed s t k old a l in (j, g.kept t j f, le)
        | inr same ↦
            let m = i.last s (subst (λ n. lookup s v.visited ≡ some n) same old) in
            let (j, f) = seen s t m l in (j, f, omega (arith, (sound t j f).0))
      ]
    ];
    root = g.kept from 0 i.root;
  }
    where
      walk : (t : String) → Memᴰ t w.next → Walk edges tid dir from (h + 1) t
      walk t m = elim (g.reason t m) [ inl x ↦ absurd (Memᴰ.not-nil x) | inr p ↦ p ]

      sound :
          (t : String) (k : ℕ)
          → lookup t w.visited ≡ some k
          → (k ≤ h + 1) × Walk edges tid dir from k t
      sound t k e = elim (g.fresh t k e) [
        | inl old ↦ (omega (arith, (i.sound t k old).0), (i.sound t k old).1)
        | inr (q, m) ↦ (omega arith, subst (λ n. Walk edges tid dir from n t) (sym q) (walk t m))
      ]

  IsLevel-idle_more :
      (n h : ℕ) (v : Visit)
      → IsLevel edges tid dir from h [] v
      → IsLevel edges tid dir from (h + n) [] v
  IsLevel-idle_more zero h v i = subst (λ m. IsLevel edges tid dir from m [] v) (omega arith) i
  IsLevel-idle_more (suc n) h v i =
      subst (λ m. IsLevel edges tid dir from m [] v) (omega arith)
        (IsLevel-idle (h + n) v (IsLevel-idle_more n h v i))

  levels-IsLevel :
      (n h : ℕ) (frontier : List String) (v : Visit)
      → IsLevel edges tid dir from h frontier v
      → (f : List String) × IsLevel edges tid dir from
          (h + n)
          f
          (levels tid dir edges n h frontier v)
  unfolding levels
  levels-IsLevel zero h frontier v i =
      (frontier, subst (λ m. IsLevel edges tid dir from m frontier v) (omega arith) i)
  levels-IsLevel (suc n) h [] v i = ([], IsLevel-idle_more (suc n) h v i)
  levels-IsLevel (suc n) h (s ∷ ss) v i =
      let w = visit_frontier tid dir (h + 1) edges (s ∷ ss) (record v { next = [] }) in
      let (g, seen) =
        visit_frontier-Visits tid dir (h + 1) edges (s ∷ ss) (record v { next = [] })
          (λ x t m l. then (i.front x m) l) in
      let (f, j) = levels-IsLevel n (h + 1) w.next w (IsLevel-step h (s ∷ ss) v w i g seen) in
      (
        f,
        subst (λ m. IsLevel edges tid dir from m f (levels tid dir edges n (h + 1) w.next w))
            (omega arith) j,
      )

  -- What a walk within the levels leads to has been seen.
  IsLevel-reaches :
      (h : ℕ) (f : List String) (v : Visit)
      → IsLevel edges tid dir from h f v
      → {n : ℕ} {t : String} (p : Walk edges tid dir from n t) → n ≤ h
      → (k : ℕ) × (lookup t v.visited ≡ some k) × (k ≤ n)
  IsLevel-reaches h f v i here le = (0, i.root, omega arith)
  IsLevel-reaches h f v i (then {n} {s} {t} p l) le =
      let (k, e, short) = IsLevel-reaches h f v i p (omega arith) in
      let (j, e', step) = i.closed s t k e (omega arith) l in (j, e', omega arith)

  ℕ-le_or_gt : (n h : ℕ) → (n ≤ h) ⊎ (h < n)
  ℕ-le_or_gt n h = omega arith

  IsLevel-shortest :
      (h : ℕ) (f : List String) (v : Visit)
      → IsLevel edges tid dir from h f v
      → {n : ℕ} {t : String} (k : ℕ) → lookup t v.visited ≡ some k
      → Walk edges tid dir from n t
      → k ≤ n
  IsLevel-shortest h f v i {n} {t} k e p = elim (ℕ-le_or_gt n h) [
    | inl le ↦
        let (j, e', short) = IsLevel-reaches h f v i p le in
        let same : k ≡ j = some_inj (sym e ∙ e') in omega arith
    | inr gt ↦ omega (arith, (i.sound t k e).0)
  ]

-- `hop_of` holds the services within the hops, each with its distance.
pub record IsDistance (edges : Table EdgeKey Edge) (tid : String) (dir : Direction) (from : String)
    (hops : ℕ) (hop_of : Assoc ℕ) : Type 0 where
  pub near : (t : String) (k : ℕ) → lookup t hop_of ≡ some k → k ≤ hops
  pub walk : (t : String) (k : ℕ) → lookup t hop_of ≡ some k → Walk edges tid dir from k t
  pub shortest :
      (t : String) (k n : ℕ) → lookup t hop_of ≡ some k → Walk edges tid dir from n t → k ≤ n
  pub complete :
      (t : String) (n : ℕ)
      → Walk edges tid dir from n t
      → n ≤ hops
      → (k : ℕ) × (lookup t hop_of ≡ some k)

-- `Neighbors` gives a hop to exactly the services that a walk of at most that many hops over the edges
-- of the tenant, in the asked direction, leads to from the service, and the hop is the length of a
-- shortest such walk.
pub neighbors-IsDistance :
    (edges : Table EdgeKey Edge) (tid service : String) (hops : ℕ) (dir : Direction)
    → IsDistance edges tid dir service hops (neighbors edges tid service hops dir).hop_of
unfolding neighbors
neighbors-IsDistance edges tid service hops dir =
    let (f, i) =
      levels-IsLevel edges tid dir service hops 0 (service ∷ []) (first_visit service)
        (IsLevel-first edges tid dir service) in
    let out = levels tid dir edges hops 0 (service ∷ []) (first_visit service) in
    let i' = subst (λ m. IsLevel edges tid dir service m f out) (omega arith) i in
    record {
      near = λ t k e. (i'.sound t k e).0;
      walk = λ t k e. (i'.sound t k e).1;
      shortest = λ t k n e p. IsLevel-shortest edges tid dir service hops f out i' k e p;
      complete = λ t n p le.
          let (k, e, short) = IsLevel-reaches edges tid dir service hops f out i' p le in (k, e);
    }
