-- ===== src/Topology/Neighbors.antt =====
-- internal/topology/livegraph.go: `Neighbors` and the other reads of the live graph. `range` over the edges
-- visits them in the order of a list, whichever it is.
pub mod Walks
pub mod Visits
pub mod Hops
use tracing_bot.Prelude.{
  ℕ, zero, suc, ◌+◌, String, Bool, true, false, ◌&&◌, ◌||◌, not, Option, none, some, List, [], ◌∷◌,
  ◌++◌, ltb, leb, ◌==◌, str_eq, if◌then◌else◌, length, is_empty,
}
use tracing_bot.Prelude.Assoc.{Assoc, lookup, put}
use tracing_bot.Prelude.Table.{Table}
use tracing_bot.Topology.Types.{
  Time, u64, u32, Direction, upstream, downstream, both, Edge, EdgeOp, EdgeKey, edge_key_eq,
  PendingKey, pending_key_eq, PendingClientSpan, ServiceNode, ChangeKind, new_edge, vanished_edge,
  ChangeEvent, Neighborhood, SpanKind, unspecified, internal, server, client, producer, consumer,
  AttrValue, Span,
}

-- The variables of `Neighbors`.
pub record Visit : Type 0 where
  pub visited : Assoc ℕ
  pub up : List String
  pub down : List String
  pub edges_out : List Edge
  pub next : List String

abbrev pub goes_down : Direction → Bool
goes_down downstream = true
goes_down both = true
goes_down upstream = false

abbrev pub goes_up : Direction → Bool
goes_up upstream = true
goes_up both = true
goes_up downstream = false

-- The callee of an edge from the service.
unfoldable pub visit_down : ℕ → Edge → Visit → Visit
visit_down h e v = elim (lookup e.callee v.visited) [
  | some k ↦ record v { edges_out = v.edges_out ++ e ∷ [] }
  | none ↦ record v {
    edges_out = v.edges_out ++ e ∷ [];
    visited = put e.callee h v.visited;
    down = v.down ++ e.callee ∷ [];
    next = v.next ++ e.callee ∷ [];
  }
]

-- The caller of an edge to the service.
unfoldable pub visit_up : ℕ → Edge → Visit → Visit
visit_up h e v = elim (lookup e.caller v.visited) [
  | some k ↦ record v { edges_out = v.edges_out ++ e ∷ [] }
  | none ↦ record v {
    edges_out = v.edges_out ++ e ∷ [];
    visited = put e.caller h v.visited;
    up = v.up ++ e.caller ∷ [];
    next = v.next ++ e.caller ∷ [];
  }
]

-- The body of the loop over the edges.
unfoldable pub visit_edge : String → Direction → ℕ → String → EdgeKey × Edge → Visit → Visit
unfolding visit_down visit_up
visit_edge tid dir h s (k, e) v =
    if not (str_eq k.tenant tid)
    then v
    else let w = if goes_down dir && str_eq e.caller s then visit_down h e v else v in
      if goes_up dir && str_eq e.callee s then visit_up h e w else w

unfoldable pub visit_edges : String → Direction → ℕ → String → Table EdgeKey Edge → Visit → Visit
unfolding visit_edge
visit_edges tid dir h s [] v = v
visit_edges tid dir h s (x ∷ xs) v = visit_edges tid dir h s xs (visit_edge tid dir h s x v)

-- One level: the loop over the frontier.
unfoldable pub visit_frontier :
    String → Direction → ℕ → Table EdgeKey Edge → List String → Visit → Visit
unfolding visit_edges
visit_frontier tid dir h edges [] v = v
visit_frontier tid dir h edges (s ∷ ss) v =
    visit_frontier tid dir h edges ss (visit_edges tid dir h s edges v)

-- The loop over the levels: those that are left, the last one done, and the frontier.
unfoldable pub levels :
    String → Direction → Table EdgeKey Edge → ℕ → ℕ → List String → Visit → Visit
unfolding visit_frontier
levels tid dir edges zero h frontier v = v
levels tid dir edges (suc n) h [] v = v
levels tid dir edges (suc n) h (s ∷ ss) v =
    let w = visit_frontier tid dir (h + 1) edges (s ∷ ss) (record v { next = [] }) in
    levels tid dir edges n (h + 1) w.next w

abbrev pub first_visit : String → Visit
first_visit service = record {
  visited = (service, 0) ∷ [];
  up = [];
  down = [];
  edges_out = [];
  next = [];
}

-- `Neighbors`.
unfoldable pub neighbors : Table EdgeKey Edge → String → String → ℕ → Direction → Neighborhood
unfolding levels
neighbors edges tid service hops dir =
    let v = levels tid dir edges hops 0 (service ∷ []) (first_visit service) in
    record {
      root = service;
      upstream = v.up;
      downstream = v.down;
      edges = v.edges_out;
      hop_of = v.visited;
    }

-- `Edges` over a window, whose ends are 0 where they are not set.
unfoldable pub edges_in : Table EdgeKey Edge → String → Time → Time → List Edge
edges_in [] tid start end = []
edges_in ((k, e) ∷ m) tid start end =
    let rest = edges_in m tid start end in
    if not (str_eq k.tenant tid)
    then rest
    else if not (start == 0) && ltb e.last_seen start
    then rest
    else if not (end == 0) && ltb end e.first_seen
    then rest
    else e ∷ rest

-- The edges of `Snapshot`.
unfoldable pub snapshot_edges : Table EdgeKey Edge → String → List Edge
snapshot_edges [] tid = []
snapshot_edges ((k, e) ∷ m) tid =
    let rest = snapshot_edges m tid in if str_eq k.tenant tid then e ∷ rest else rest
