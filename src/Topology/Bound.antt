-- ===== src/Topology/Bound.antt =====
-- The live graph keeps no more edges than its configuration allows, whatever calls it gets.
use tracing_bot.Prelude.{
  ℕ, zero, suc, ◌+◌, ◌<◌, ◌≤◌, String, Bool, true, false, List, [], ◌∷◌, ◌≡◌, refl, arith, length,
  ◌-◌, ◌==◌, subst, sym, ◌∙◌, if◌then◌else◌, ltb, if_elim, opt_elim,
}
use mathlib.Core.List.{Memᴰ}
use text.Mathlib.TextPositions.{eq_refl}
use tracing_bot.Prelude.Table.{Table, find, erase, length-store_found, length-erase_Mem}
use tracing_bot.Topology.Types.{Time, Edge, EdgeKey, edge_key_eq, Span}
use tracing_bot.Topology.Graph.{LiveGraph, new_live_graph}
use tracing_bot.Topology.Evict.{
  colder, pick_victim, drop_edge, evict_one, evict_loop, evict_if_needed,
}
use tracing_bot.Topology.Upsert.{bump_edge, or_insert, is_new_sighting, mark_new, upsert_key}
use tracing_bot.Topology.Calls.Rule.{IsKept, after_calls-IsKept}
use tracing_bot.Topology.Sweep.{vanish, install, install_all, warm_start}
use tracing_bot.Topology.Calls.{GraphCall, after_calls}

pub edge_key_eq_refl : (k : EdgeKey) → edge_key_eq k k ≡ true
edge_key_eq_refl k = simp eq_refl

Mem-if :
    {A : Type 0} (b : Bool) {x y z : A} {xs : List A}
    → Memᴰ z ((if b then x else y) ∷ xs)
    → Memᴰ z (y ∷ x ∷ xs)
Mem-if true p = Memᴰ.tail p
Mem-if false (Memᴰ.head e) = Memᴰ.head e
Mem-if false (Memᴰ.tail p) = Memᴰ.tail (Memᴰ.tail p)

pub pick_victim-Mem :
    (g : LiveGraph) (best : EdgeKey × Edge) (xs : Table EdgeKey Edge)
    → Memᴰ (pick_victim g best xs) (best ∷ xs)
unfolding pick_victim
pick_victim-Mem g best [] = Memᴰ.head refl
pick_victim-Mem g best (x ∷ xs) =
    Mem-if (colder g x best) (pick_victim-Mem g (if colder g x best then x else best) xs)

pub record IsBounded (bound : ℕ) (g : LiveGraph) : Type 0 where
  pub limit : g.max_edges ≡ bound
  pub edges-le : length g.edges ≤ bound

length-drop_victim :
    (g : LiveGraph) (x : EdgeKey × Edge) (xs : Table EdgeKey Edge)
    → length (erase edge_key_eq (pick_victim g x xs).0 (x ∷ xs)) ≤ length xs
length-drop_victim g x xs =
    let v = pick_victim g x xs in
    omega (
      arith,
      length-erase_Mem edge_key_eq v.0 v.1 (x ∷ xs) (edge_key_eq_refl v.0) (pick_victim-Mem g x xs),
    )

pub length-evict_one :
    (g : LiveGraph) (m : Table EdgeKey Edge)
    → g.edges ≡ m
    → ((evict_one g m).max_edges ≡ g.max_edges) × (length (evict_one g m).edges ≤ length m - 1)
unfolding drop_edge
length-evict_one g [] e = (refl, rw e (omega arith))
length-evict_one g (x ∷ xs) e =
    let shorter =
      subst (λ m. length (erase edge_key_eq (pick_victim g x xs).0 m) ≤ length xs) (sym e)
        (length-drop_victim g x xs) in
    (refl, omega (arith, shorter))

-- Fuel for the rounds that are over the limit is enough.
evict_loop-IsBounded :
    (n bound : ℕ) (g : LiveGraph)
    → g.max_edges ≡ bound
    → length g.edges ≤ bound + n
    → IsBounded bound (evict_loop n g)
unfolding evict_loop
evict_loop-IsBounded zero bound g e h = record { limit = e; edges-le = omega arith }
evict_loop-IsBounded (suc n) bound g e h =
    let (a, b) = length-evict_one g g.edges refl in
    let rest = evict_loop-IsBounded n bound (evict_one g g.edges) (omega arith) (omega arith) in
    if_elim (IsBounded bound) (ltb g.max_edges (length g.edges)) (λ _. rest)
      (λ f. record { limit = e; edges-le = ground arith })

evict_if_needed-IsBounded :
    (bound : ℕ) (g : LiveGraph)
    → 0 < bound
    → g.max_edges ≡ bound
    → IsBounded bound (evict_if_needed g)
unfolding evict_if_needed
evict_if_needed-IsBounded bound g p e =
    if_elim (IsBounded bound) (g.max_edges == 0)
      (λ z. record { limit = e; edges-le = ground arith })
      (λ _. evict_loop-IsBounded (length g.edges) bound g e (omega arith))

mark_new-length :
    (k : EdgeKey) (b : Bool) (m : Table EdgeKey Edge) → length (mark_new k b m) ≡ length m
unfolding mark_new
mark_new-length k b m =
    opt_elim (λ (n : Table EdgeKey Edge). length n ≡ length m) (find edge_key_eq k m) (λ _. refl)
      (λ x. length-store_found edge_key_eq k (record x { is_new = b }) x m)

vanish-length : (w : ℕ) (now : Time) (m : Table EdgeKey Edge) → length (vanish w now m).0 ≡ length m
unfolding vanish
vanish-length w now [] = refl
vanish-length w now ((k, e) ∷ m) = ground (arith, vanish-length w now m)

module _ (bound : ℕ) (positive : 0 < bound) where
  or_insert-IsBounded :
      (k : EdgeKey) (ts : Time) (s : Span) (g : LiveGraph)
      → IsBounded bound g
      → IsBounded bound (or_insert k ts s g)
  unfolding or_insert
  or_insert-IsBounded k ts s g h =
      opt_elim (IsBounded bound) (find edge_key_eq k g.edges)
        (λ _. evict_if_needed-IsBounded bound _ positive h.limit)
        (λ x e. record {
          limit = h.limit;
          edges-le =
              let same = length-store_found edge_key_eq k (bump_edge x ts s) x g.edges e in
              omega (arith, same, h.edges-le);
        })

  upsert_key-IsBounded :
      (k : EdgeKey) (op : String) (ts : Time) (s : Span) (g : LiveGraph)
      → IsBounded bound g
      → IsBounded bound (upsert_key k op ts s g)
  unfolding upsert_key
  upsert_key-IsBounded k op ts s g h =
      let b = or_insert-IsBounded k ts s g h in
      let g' = or_insert k ts s g in
      record {
        limit = b.limit;
        edges-le = omega (arith, b.edges-le, mark_new-length k (is_new_sighting g' k ts) g'.edges);
      }

  install_all-limit : (es : List Edge) (g : LiveGraph) → (install_all es g).max_edges ≡ g.max_edges
  unfolding install_all
  install_all-limit [] g = refl
  install_all-limit (e ∷ es) g =
      install_all-limit es (install g e)
      ∙ opt_elim (λ (x : LiveGraph). x.max_edges ≡ g.max_edges) (find edge_key_eq _ g.edges)
          (λ _. refl) (λ _ _. refl)

  IsKept-IsBounded : IsKept (IsBounded bound)
  unfolding warm_start
  IsKept-IsBounded = record {
    upsert = upsert_key-IsBounded;
    services = λ m g h. record { limit = h.limit; edges-le = h.edges-le };
    pending = λ m g h. record { limit = h.limit; edges-le = h.edges-le };
    vanished = λ w now ch g h. record {
      limit = h.limit;
      edges-le = omega (arith, h.edges-le, vanish-length w now g.edges);
    };
    loaded =
        λ es g h. evict_if_needed-IsBounded bound _ positive (install_all-limit es g ∙ h.limit);
  }

-- Whatever calls a new live graph gets, it has at most `max_edges` edges, if that bound is not 0.
pub after_calls-IsBounded :
    (bound after : ℕ) (calls : List GraphCall)
    → 0 < bound
    → IsBounded bound (after_calls calls (new_live_graph bound after))
unfolding new_live_graph
after_calls-IsBounded bound after calls p =
    after_calls-IsKept (IsKept-IsBounded bound p) calls (new_live_graph bound after)
      (record { limit = refl; edges-le = omega arith })
