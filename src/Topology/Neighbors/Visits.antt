-- ===== src/Topology/Neighbors/Visits.antt =====
-- What visiting the edges of a frontier adds to the services seen.
use tracing_bot.Prelude.{
  ℕ, String, true, List, [], ◌∷◌, ◌≡◌, refl, arith, ◌⊎◌, inl, inr, str_eq, eq_iff, ◌&&◌,
  if◌then◌else◌, opt_elim, Bool-cases, subst, sym, ap, ◌∙◌,
}
use mathlib.Core.List.{Memᴰ}
use mathlib.Core.List.Memᴰ
use tracing_bot.Prelude.Assoc.{lookup, lookup-put_self}
use tracing_bot.Prelude.Table.{Table}
use tracing_bot.Topology.Types.{Direction, Edge, EdgeKey}
use tracing_bot.Topology.Neighbors.{
  Visit, goes_down, goes_up, visit_down, visit_up, visit_edge, visit_edges, visit_frontier,
}
use tracing_bot.Topology.Neighbors.Walks.{
  Link, down, up, IsVisited, Grows, Grows-same, Grows-refl, Grows-trans, Grows-put,
}

-- Visiting one end of an edge, which then is seen.
abbrev Visits : (String → Type 0) → ℕ → String → Visit → Visit → Type 0
Visits P h t v w = Grows P h v w × IsVisited t w

visit_down-Visits :
    {P : String → Type 0} (h : ℕ) (e : Edge) (v : Visit)
    → P e.callee
    → Visits P h e.callee v (visit_down h e v)
unfolding visit_down
visit_down-Visits {P} h e v p =
    opt_elim (Visits P h e.callee v) (lookup e.callee v.visited)
      (λ a. (Grows-put h e.callee v _ a refl refl p, (h, lookup-put_self e.callee h v.visited)))
      (λ k f. (Grows-same v _ refl refl, (k, f)))

visit_up-Visits :
    {P : String → Type 0} (h : ℕ) (e : Edge) (v : Visit)
    → P e.caller
    → Visits P h e.caller v (visit_up h e v)
unfolding visit_up
visit_up-Visits {P} h e v p =
    opt_elim (Visits P h e.caller v) (lookup e.caller v.visited)
      (λ a. (Grows-put h e.caller v _ a refl refl p, (h, lookup-put_self e.caller h v.visited)))
      (λ k f. (Grows-same v _ refl refl, (k, f)))

IsVisited-Grows :
    {P : String → Type 0} {h : ℕ} (t : String) (v w : Visit)
    → Grows P h v w
    → IsVisited t v
    → IsVisited t w
IsVisited-Grows t v w g (k, e) = (k, g.kept t k e)

down_half-Visits :
    {P : String → Type 0} (dir : Direction) (h : ℕ) (s : String) (e : Edge) (v : Visit)
    → (goes_down dir ≡ true → e.caller ≡ s → P e.callee)
    → let w = if goes_down dir && str_eq e.caller s then visit_down h e v else v in
      Grows P h v w × (goes_down dir ≡ true → e.caller ≡ s → IsVisited e.callee w)
down_half-Visits {P} dir h s e v r = elim (Bool-cases (goes_down dir && str_eq e.caller s)) [
  | inl holds ↦
      let (g, seen) =
        visit_down-Visits h e v (r (ground arith) (ground (arith, eq_iff e.caller s))) in
      rw holds (g, λ _ _. seen)
  | inr fails ↦ rw fails (Grows-refl v, λ d c. absurd (ground (arith, eq_iff e.caller s)))
]

up_half-Visits :
    {P : String → Type 0} (dir : Direction) (h : ℕ) (s : String) (e : Edge) (v : Visit)
    → (goes_up dir ≡ true → e.callee ≡ s → P e.caller)
    → let w = if goes_up dir && str_eq e.callee s then visit_up h e v else v in
      Grows P h v w × (goes_up dir ≡ true → e.callee ≡ s → IsVisited e.caller w)
up_half-Visits {P} dir h s e v r = elim (Bool-cases (goes_up dir && str_eq e.callee s)) [
  | inl holds ↦
      let (g, seen) =
        visit_up-Visits h e v (r (ground arith) (ground (arith, eq_iff e.callee s))) in
      rw holds (g, λ _ _. seen)
  | inr fails ↦ rw fails (Grows-refl v, λ d c. absurd (ground (arith, eq_iff e.callee s)))
]

-- What the search does about the edges from or to `s`.
module _ (tid : String) (dir : Direction) (h : ℕ) (s : String) where
  -- The edge leads from `s` to `t`.
  abbrev Leads : EdgeKey → Edge → String → Type 0
  Leads k e t =
      (k.tenant ≡ tid)
      × (((goes_down dir ≡ true) × (e.caller ≡ s) × (e.callee ≡ t))
          ⊎ ((goes_up dir ≡ true) × (e.callee ≡ s) × (e.caller ≡ t)))

  Leads-Link :
      (k : EdgeKey) (e : Edge) (xs : Table EdgeKey Edge) (t : String)
      → Leads k e t
      → Link ((k, e) ∷ xs) tid dir s t
  Leads-Link k e xs t (n, inl (d, a, b)) = down (Memᴰ.head refl) n d a b
  Leads-Link k e xs t (n, inr (d, a, b)) = up (Memᴰ.head refl) n d a b

  Link-tail :
      (x : EdgeKey × Edge) (xs : Table EdgeKey Edge) (t : String)
      → Link xs tid dir s t
      → Link (x ∷ xs) tid dir s t
  Link-tail x xs t (down m n d a b) = down (Memᴰ.tail m) n d a b
  Link-tail x xs t (up m n d a b) = up (Memᴰ.tail m) n d a b

  Link-cases :
      (k : EdgeKey) (e : Edge) (xs : Table EdgeKey Edge) (t : String)
      → Link ((k, e) ∷ xs) tid dir s t
      → Leads k e t ⊎ Link xs tid dir s t
  Link-cases k e xs t (down (Memᴰ.head q) n d a b) = inl (
    sym (ap (λ (x : EdgeKey × Edge). x.0.tenant) q) ∙ n,
    inl (
      d,
      sym (ap (λ (x : EdgeKey × Edge). x.1.caller) q) ∙ a,
      sym (ap (λ (x : EdgeKey × Edge). x.1.callee) q) ∙ b,
    ),
  )
  Link-cases k e xs t (down (Memᴰ.tail m) n d a b) = inr (down m n d a b)
  Link-cases k e xs t (up (Memᴰ.head q) n d a b) = inl (
    sym (ap (λ (x : EdgeKey × Edge). x.0.tenant) q) ∙ n,
    inr (
      d,
      sym (ap (λ (x : EdgeKey × Edge). x.1.callee) q) ∙ a,
      sym (ap (λ (x : EdgeKey × Edge). x.1.caller) q) ∙ b,
    ),
  )
  Link-cases k e xs t (up (Memᴰ.tail m) n d a b) = inr (up m n d a b)

  visit_edge-Visits :
      {P : String → Type 0} (k : EdgeKey) (e : Edge) (v : Visit)
      → ((t : String) → Leads k e t → P t)
      → Grows P h v (visit_edge tid dir h s (k, e) v)
        × ((t : String) → Leads k e t → IsVisited t (visit_edge tid dir h s (k, e) v))
  unfolding visit_edge
  visit_edge-Visits {P} k e v r = elim (Bool-cases (str_eq k.tenant tid)) [
    | inr fails ↦ rw fails (Grows-refl v, λ t l. absurd (ground (arith, l.0, eq_iff k.tenant tid)))
    | inl holds ↦
        let same : k.tenant ≡ tid = ground (arith, eq_iff k.tenant tid) in
        let (g, seen) =
          down_half-Visits {P = P} dir h s e v (λ d c. r e.callee (same, inl (d, c, refl))) in
        let w = if goes_down dir && str_eq e.caller s then visit_down h e v else v in
        let w' = if goes_up dir && str_eq e.callee s then visit_up h e w else w in
        let (g', seen') =
          up_half-Visits {P = P} dir h s e w (λ d c. r e.caller (same, inr (d, c, refl))) in
        rw holds (
          Grows-trans g g',
          λ t l. elim l.1 [
            | inl (d, a, b) ↦
                subst (λ x. IsVisited x w') b (IsVisited-Grows e.callee w w' g' (seen d a))
            | inr (d, a, b) ↦ subst (λ x. IsVisited x w') b (seen' d a)
          ],
        )
  ]

  visit_edges-Visits :
      {P : String → Type 0} (xs : Table EdgeKey Edge) (v : Visit)
      → ((t : String) → Link xs tid dir s t → P t)
      → Grows P h v (visit_edges tid dir h s xs v)
        × ((t : String) → Link xs tid dir s t → IsVisited t (visit_edges tid dir h s xs v))
  unfolding visit_edges
  visit_edges-Visits [] v r = (Grows-refl v, λ t l. absurd (Link-nil t l))
    where
      Link-nil : (t : String) → ¬ Link [] tid dir s t
      Link-nil t (down m n d a b) = Memᴰ.not-nil m
      Link-nil t (up m n d a b) = Memᴰ.not-nil m
  visit_edges-Visits {P} ((k, e) ∷ xs) v r =
      let w = visit_edge tid dir h s (k, e) v in
      let (g, seen) = visit_edge-Visits {P = P} k e v (λ t l. r t (Leads-Link k e xs t l)) in
      let (g', seen') = visit_edges-Visits {P = P} xs w (λ t l. r t (Link-tail (k, e) xs t l)) in
      (
        Grows-trans g g',
        λ t l. elim (Link-cases k e xs t l) [
          | inl x ↦ IsVisited-Grows t w (visit_edges tid dir h s xs w) g' (seen t x)
          | inr x ↦ seen' t x
        ],
      )

pub visit_frontier-Visits :
    {P : String → Type 0} (tid : String) (dir : Direction) (h : ℕ) (edges : Table EdgeKey Edge)
    (ss : List String) (v : Visit)
    → ((s t : String) → Memᴰ s ss → Link edges tid dir s t → P t)
    → Grows P h v (visit_frontier tid dir h edges ss v)
      × ((s t : String)
          → Memᴰ s ss
          → Link edges tid dir s t
          → IsVisited t (visit_frontier tid dir h edges ss v))
unfolding visit_frontier
visit_frontier-Visits tid dir h edges [] v r = (Grows-refl v, λ s t m. absurd (Memᴰ.not-nil m))
visit_frontier-Visits {P} tid dir h edges (x ∷ ss) v r =
    let w = visit_edges tid dir h x edges v in
    let (g, seen) =
      visit_edges-Visits tid dir h x {P = P} edges v (λ t l. r x t (Memᴰ.head refl) l) in
    let (g', seen') =
      visit_frontier-Visits {P = P} tid dir h edges ss w (λ s t m l. r s t (Memᴰ.tail m) l) in
    (Grows-trans g g', λ s t m l. go s t m l g' seen seen')
  where
    go :
        (s t : String)
        → Memᴰ s (x ∷ ss)
        → Link edges tid dir s t
        → Grows P h
            (visit_edges tid dir h x edges v)
            (visit_frontier tid dir h edges ss (visit_edges tid dir h x edges v))
        → ((t : String) → Link edges tid dir x t → IsVisited t (visit_edges tid dir h x edges v))
        → ((s t : String)
            → Memᴰ s ss
            → Link edges tid dir s t
            → IsVisited t (visit_frontier tid dir h edges ss (visit_edges tid dir h x edges v)))
        → IsVisited t (visit_frontier tid dir h edges ss (visit_edges tid dir h x edges v))
    go s t (Memᴰ.head q) l g seen seen' =
        IsVisited-Grows t _ _ g (seen t (subst (λ y. Link edges tid dir y t) q l))
    go s t (Memᴰ.tail m) l g seen seen' = seen' s t m l
