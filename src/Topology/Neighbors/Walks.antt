-- ===== src/Topology/Neighbors/Walks.antt =====
-- Walks over the edges of a tenant, and how a visit grows.
use tracing_bot.Prelude.{
  ℕ, ◌+◌, String, true, none, some, List, [], ◌∷◌, ◌++◌, ◌≡◌, refl, arith, ◌⊎◌, inl, inr, eq_iff,
  subst, sym,
}
use mathlib.Core.List.{Memᴰ}
use mathlib.Core.List.Memᴰ
use tracing_bot.Prelude.Assoc.{Assoc, lookup, put, lookup-put}
use tracing_bot.Prelude.Table.{Table}
use tracing_bot.Topology.Types.{Direction, Edge, EdgeKey}
use tracing_bot.Topology.Neighbors.{Visit, goes_down, goes_up}

-- A call between two services, in a direction that the search follows.
pub data Link (edges : Table EdgeKey Edge) (tid : String) (dir : Direction)
    : String → String → Type 0 where
  down :
      {k : EdgeKey} {e : Edge} {s t : String}
      → Memᴰ (k, e) edges
      → k.tenant ≡ tid
      → goes_down dir ≡ true
      → e.caller ≡ s
      → e.callee ≡ t
      → Link edges tid dir s t
  up :
      {k : EdgeKey} {e : Edge} {s t : String}
      → Memᴰ (k, e) edges
      → k.tenant ≡ tid
      → goes_up dir ≡ true
      → e.callee ≡ s
      → e.caller ≡ t
      → Link edges tid dir s t

pub data Walk (edges : Table EdgeKey Edge) (tid : String) (dir : Direction) (from : String)
    : ℕ → String → Type 0 where
  here : Walk edges tid dir from 0 from
  then :
      {n : ℕ} {s t : String}
      → Walk edges tid dir from n s
      → Link edges tid dir s t
      → Walk edges tid dir from (n + 1) t

abbrev pub IsVisited : String → Visit → Type 0
IsVisited t v = (k : ℕ) × (lookup t v.visited ≡ some k)

-- `w` is `v` with further services, each seen at the hop `h` and queued because `P` holds of it.
pub record Grows (P : String → Type 0) (h : ℕ) (v w : Visit) : Type 0 where
  pub kept : (t : String) (k : ℕ) → lookup t v.visited ≡ some k → lookup t w.visited ≡ some k
  pub fresh :
      (t : String) (k : ℕ)
      → lookup t w.visited ≡ some k
      → (lookup t v.visited ≡ some k) ⊎ ((k ≡ h) × Memᴰ t w.next)
  pub queued : (t : String) → Memᴰ t v.next → Memᴰ t w.next
  pub reason : (t : String) → Memᴰ t w.next → Memᴰ t v.next ⊎ P t

pub Grows-same :
    {P : String → Type 0} {h : ℕ} (v w : Visit)
    → w.visited ≡ v.visited
    → w.next ≡ v.next
    → Grows P h v w
Grows-same v w ev en = record {
  kept = λ t k e. subst (λ m. lookup t m ≡ some k) (sym ev) e;
  fresh = λ t k e. inl (subst (λ m. lookup t m ≡ some k) ev e);
  queued = λ t m. subst (Memᴰ t) (sym en) m;
  reason = λ t m. inl (subst (Memᴰ t) en m);
}

pub Grows-refl : {P : String → Type 0} {h : ℕ} (v : Visit) → Grows P h v v
Grows-refl v = Grows-same v v refl refl

pub Grows-trans :
    {P : String → Type 0} {h : ℕ} {u v w : Visit} → Grows P h u v → Grows P h v w → Grows P h u w
Grows-trans a b = record {
  kept = λ t k e. b.kept t k (a.kept t k e);
  fresh = λ t k e. elim (b.fresh t k e) [
    | inr (q, m) ↦ inr (q, m)
    | inl e' ↦ elim (a.fresh t k e') [ inl x ↦ inl x | inr (q, m) ↦ inr (q, b.queued t m) ]
  ];
  queued = λ t m. b.queued t (a.queued t m);
  reason = λ t m. elim (b.reason t m) [ inl x ↦ a.reason t x | inr p ↦ inr p ];
}

Memᴰ-snoc : {t x : String} (xs : List String) → Memᴰ t (xs ++ x ∷ []) → Memᴰ t xs ⊎ (t ≡ x)
Memᴰ-snoc [] (Memᴰ.head e) = inr e
Memᴰ-snoc [] (Memᴰ.tail p) = absurd (Memᴰ.not-nil p)
Memᴰ-snoc (y ∷ ys) (Memᴰ.head e) = inl (Memᴰ.head e)
Memᴰ-snoc (y ∷ ys) (Memᴰ.tail p) = elim (Memᴰ-snoc ys p) [
  | inl m ↦ inl (Memᴰ.tail m)
  | inr e ↦ inr e
]

Memᴰ-in_front : {t : String} (xs ys : List String) → Memᴰ t xs → Memᴰ t (xs ++ ys)
Memᴰ-in_front (x ∷ xs) ys (Memᴰ.head e) = Memᴰ.head e
Memᴰ-in_front (x ∷ xs) ys (Memᴰ.tail p) = Memᴰ.tail (Memᴰ-in_front xs ys p)
Memᴰ-in_front [] ys p = absurd (Memᴰ.not-nil p)

Memᴰ-at_end : {t : String} (xs : List String) → Memᴰ t (xs ++ t ∷ [])
Memᴰ-at_end [] = Memᴰ.head refl
Memᴰ-at_end (x ∷ xs) = Memᴰ.tail (Memᴰ-at_end xs)

put-kept :
    (s t : String) (h k : ℕ) (m : Assoc ℕ)
    → lookup s m ≡ none
    → lookup t m ≡ some k
    → lookup t (put s h m) ≡ some k
put-kept s t h k m a e = ground (arith, lookup-put s t h m, eq_iff s t)

put-new :
    (s t : String) (h k : ℕ) (m : Assoc ℕ)
    → lookup t (put s h m) ≡ some k
    → (lookup t m ≡ some k) ⊎ ((k ≡ h) × (t ≡ s))
put-new s t h k m e = ground (arith, lookup-put s t h m, eq_iff s t)

-- A service that is not seen yet is queued.
pub Grows-put :
    {P : String → Type 0} (h : ℕ) (s : String) (v w : Visit)
    → lookup s v.visited ≡ none
    → w.visited ≡ put s h v.visited
    → w.next ≡ v.next ++ s ∷ []
    → P s
    → Grows P h v w
Grows-put {P} h s v w absent ev en p = record {
  kept = λ t k e. subst (λ m. lookup t m ≡ some k) (sym ev) (put-kept s t h k v.visited absent e);
  fresh = λ t k e. elim (put-new s t h k v.visited (subst (λ m. lookup t m ≡ some k) ev e)) [
    | inl x ↦ inl x
    | inr (q, same) ↦
        inr
          (q, subst (λ x. Memᴰ x w.next) (sym same) (subst (Memᴰ s) (sym en) (Memᴰ-at_end v.next)))
  ];
  queued = λ t m. subst (Memᴰ t) (sym en) (Memᴰ-in_front v.next (s ∷ []) m);
  reason = λ t m. elim (Memᴰ-snoc v.next (subst (Memᴰ t) en m)) [
    | inl x ↦ inl x
    | inr same ↦ inr (subst P (sym same) p)
  ];
}
