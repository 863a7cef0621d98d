-- ===== src/Topology/Evict.antt =====
-- internal/topology/livegraph.go: `evictIfNeeded`, which keeps the graph within its bound.
use tracing_bot.Prelude.{
  ℕ, zero, suc, ◌+◌, Bool, not, none, some, [], ◌∷◌, ltb, ◌==◌, str_eq, if◌then◌else◌, length,
}
use tracing_bot.Prelude.Table.{Table, find, erase}
use tracing_bot.Topology.Types.{Edge, EdgeKey, edge_key_eq}
use tracing_bot.Topology.Graph.{LiveGraph}

abbrev pub seq_of : LiveGraph → EdgeKey → ℕ
seq_of g k = elim (find edge_key_eq k g.insert_seq) [ none ↦ 0 | some n ↦ n ]

-- `colder`.
unfoldable pub colder : LiveGraph → EdgeKey × Edge → EdgeKey × Edge → Bool
colder g (ak, a) (bk, b) =
    if not (a.calls == b.calls)
    then ltb a.calls b.calls
    else if not (a.last_seen == b.last_seen)
    then ltb a.last_seen b.last_seen
    else ltb (seq_of g ak) (seq_of g bk)

-- The loop over the edges for a victim, with the best so far.
unfoldable pub pick_victim : LiveGraph → EdgeKey × Edge → Table EdgeKey Edge → EdgeKey × Edge
unfolding colder
pick_victim g best [] = best
pick_victim g best (x ∷ xs) = pick_victim g (if colder g x best then x else best) xs

-- Deleting an edge with its companions.
unfoldable pub drop_edge : EdgeKey → Edge → LiveGraph → LiveGraph
drop_edge k e g = record g {
  edges = erase edge_key_eq k g.edges;
  insert_seq = erase edge_key_eq k g.insert_seq;
  last_new_emit = erase edge_key_eq k g.last_new_emit;
  ops = erase str_eq e.id g.ops;
  evicted = g.evicted + 1;
}

-- One round of the loop of `evictIfNeeded`, over the edges.
abbrev pub evict_one : LiveGraph → Table EdgeKey Edge → LiveGraph
evict_one g [] = g
evict_one g (x ∷ xs) = let v = pick_victim g x xs in drop_edge v.0 v.1 g

-- The loop, with fuel for its rounds.
unfoldable pub evict_loop : ℕ → LiveGraph → LiveGraph
unfolding pick_victim drop_edge
evict_loop zero g = g
evict_loop (suc n) g =
    let rest = evict_loop n (evict_one g g.edges) in
    if ltb g.max_edges (length g.edges) then rest else g

-- `evictIfNeeded`.
unfoldable pub evict_if_needed : LiveGraph → LiveGraph
unfolding evict_loop
evict_if_needed g = if g.max_edges == 0 then g else evict_loop (length g.edges) g
