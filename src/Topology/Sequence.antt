-- ===== src/Topology/Sequence.antt =====
-- Every edge of the live graph has its own place in the order of insertion.
use tracing_bot.Prelude.{
  ℕ, zero, suc, ◌+◌, String, Bool, none, some, List, [], ◌∷◌, ◌≡◌, arith, length, ltb, ◌==◌,
  if_elim, opt_elim, not, ◌&&◌,
}
use tracing_bot.Prelude.Table.{Table, find, store}
use tracing_bot.Topology.Types.{Time, Edge, EdgeKey, edge_key_eq, ChangeEvent, Span}
use tracing_bot.Topology.Graph.{LiveGraph, new_live_graph}
use tracing_bot.Topology.Evict.{pick_victim, drop_edge, evict_one, evict_loop, evict_if_needed}
use tracing_bot.Topology.Upsert.{
  fresh_edge, bump_edge, insert_fresh, or_insert, is_new_sighting, mark_new, upsert_key,
}
use tracing_bot.Topology.Calls.Rule.{IsKept, after_calls-IsKept}
use tracing_bot.Topology.Sweep.{vanish, install, install_all, warm_start}
use tracing_bot.Topology.Calls.{GraphCall, after_calls}
use tracing_bot.Topology.Numbered.{
  Aligned, nothing, entry, IsAscending, find-Aligned, Aligned-store, Aligned-store_found,
  Aligned-erase, IsAscending-erase, IsAscending-store,
}

-- Every edge has its place in the order of insertion, and no two have the same.
pub record IsSequenced (g : LiveGraph) : Type 0 where
  pub aligned : Aligned g.edges g.insert_seq
  pub ascending : IsAscending 0 g.insert_seq g.next_seq

drop_edge-IsSequenced :
    (k : EdgeKey) (e : Edge) (g : LiveGraph) → IsSequenced g → IsSequenced (drop_edge k e g)
unfolding drop_edge
drop_edge-IsSequenced k e g h = record {
  aligned = Aligned-erase k h.aligned;
  ascending = IsAscending-erase k 0 g.next_seq g.insert_seq h.ascending;
}

evict_loop-IsSequenced : (n : ℕ) (g : LiveGraph) → IsSequenced g → IsSequenced (evict_loop n g)
unfolding evict_loop
evict_loop-IsSequenced zero g h = h
evict_loop-IsSequenced (suc n) g h =
    let one : IsSequenced (evict_one g g.edges) = go g.edges in
    if_elim IsSequenced (ltb g.max_edges (length g.edges))
      (λ _. evict_loop-IsSequenced n (evict_one g g.edges) one) (λ _. h)
  where
    go : (m : Table EdgeKey Edge) → IsSequenced (evict_one g m)
    go [] = h
    go (x ∷ xs) = drop_edge-IsSequenced (pick_victim g x xs).0 (pick_victim g x xs).1 g h

evict_if_needed-IsSequenced : (g : LiveGraph) → IsSequenced g → IsSequenced (evict_if_needed g)
unfolding evict_if_needed
evict_if_needed-IsSequenced g h =
    if_elim IsSequenced (g.max_edges == 0) (λ _. h)
      (λ _. evict_loop-IsSequenced (length g.edges) g h)

pub insert-IsSequenced :
    (k : EdgeKey) (e : Edge) (g : LiveGraph)
    → find edge_key_eq k g.edges ≡ none
    → IsSequenced g
    → IsSequenced (record g {
      edges = store edge_key_eq k e g.edges;
      insert_seq = store edge_key_eq k (g.next_seq + 1) g.insert_seq;
      next_seq = g.next_seq + 1;
    })
insert-IsSequenced k e g f h = record {
  aligned = Aligned-store k e (g.next_seq + 1) h.aligned;
  ascending =
      IsAscending-store k 0 g.next_seq g.insert_seq (find-Aligned k h.aligned f) h.ascending;
}

overwrite-IsSequenced :
    (k : EdgeKey) (e old : Edge) (g : LiveGraph)
    → find edge_key_eq k g.edges ≡ some old
    → IsSequenced g
    → IsSequenced (record g { edges = store edge_key_eq k e g.edges })
overwrite-IsSequenced k e old g f h = record {
  aligned = Aligned-store_found k e old f h.aligned;
  ascending = h.ascending;
}

or_insert-IsSequenced :
    (k : EdgeKey) (ts : Time) (s : Span) (g : LiveGraph)
    → IsSequenced g
    → IsSequenced (or_insert k ts s g)
unfolding or_insert
or_insert-IsSequenced k ts s g h =
    opt_elim IsSequenced (find edge_key_eq k g.edges)
      (λ f.
        evict_if_needed-IsSequenced (insert_fresh k ts s g)
          (insert-IsSequenced k (bump_edge (fresh_edge k ts) ts s) g f h))
      (λ e f. overwrite-IsSequenced k (bump_edge e ts s) e g f h)

mark_new-Aligned :
    (k : EdgeKey) (b : Bool) {m : Table EdgeKey Edge} {n : Table EdgeKey ℕ}
    → Aligned m n
    → Aligned (mark_new k b m) n
unfolding mark_new
mark_new-Aligned k b {m} {n} a =
    opt_elim (λ (x : Table EdgeKey Edge). Aligned x n) (find edge_key_eq k m) (λ _. a)
      (λ e f. Aligned-store_found k (record e { is_new = b }) e f a)

upsert_key-IsSequenced :
    (k : EdgeKey) (op : String) (ts : Time) (s : Span) (g : LiveGraph)
    → IsSequenced g
    → IsSequenced (upsert_key k op ts s g)
unfolding upsert_key
upsert_key-IsSequenced k op ts s g h =
    let b = or_insert-IsSequenced k ts s g h in
    record {
      aligned = mark_new-Aligned k (is_new_sighting (or_insert k ts s g) k ts) b.aligned;
      ascending = b.ascending;
    }

vanish-Aligned :
    (w : ℕ) (now : Time) {m : Table EdgeKey Edge} {n : Table EdgeKey ℕ}
    → Aligned m n
    → Aligned (vanish w now m).0 n
unfolding vanish
vanish-Aligned w now nothing = nothing
vanish-Aligned w now (entry {k = k} {e = e} {i = i} {n = n} a) =
    if_elim (λ (x : Table EdgeKey Edge × List ChangeEvent). Aligned x.0 ((k, i) ∷ n))
      (not e.is_vanished && ltb (e.last_seen + w) now) (λ _. entry (vanish-Aligned w now a))
      (λ _. entry (vanish-Aligned w now a))

install_all-IsSequenced :
    (es : List Edge) (g : LiveGraph) → IsSequenced g → IsSequenced (install_all es g)
unfolding install_all
install_all-IsSequenced [] g h = h
install_all-IsSequenced (e ∷ es) g h = install_all-IsSequenced es (install g e) (
    opt_elim IsSequenced (find edge_key_eq _ g.edges) (λ f. insert-IsSequenced _ e g f h)
      (λ old f. overwrite-IsSequenced _ e old g f h))

IsKept-IsSequenced : IsKept IsSequenced
unfolding warm_start
IsKept-IsSequenced = record {
  upsert = upsert_key-IsSequenced;
  services = λ m g h. record { aligned = h.aligned; ascending = h.ascending };
  pending = λ m g h. record { aligned = h.aligned; ascending = h.ascending };
  vanished =
      λ w now ch g h. record { aligned = vanish-Aligned w now h.aligned; ascending = h.ascending };
  loaded =
      λ es g h. evict_if_needed-IsSequenced (install_all es g) (install_all-IsSequenced es g h);
}

pub after_calls-IsSequenced :
    (bound after : ℕ) (calls : List GraphCall)
    → IsSequenced (after_calls calls (new_live_graph bound after))
unfolding new_live_graph
after_calls-IsSequenced bound after calls =
    after_calls-IsKept IsKept-IsSequenced calls (new_live_graph bound after)
      (record { aligned = nothing; ascending = omega arith })
