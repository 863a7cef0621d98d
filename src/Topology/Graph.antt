-- ===== src/Topology/Graph.antt =====
-- internal/topology/livegraph.go: the live graph, its services and its channel of changes. A map is an
-- association list, and `range` visits it in the order of the list.
use tracing_bot.Prelude.{
  ℕ, String, Bool, true, false, none, some, List, [], ◌∷◌, ◌++◌, ltb, ◌==◌, str_eq, if◌then◌else◌,
  length,
}
use tracing_bot.Prelude.Assoc.{Assoc, lookup, put}
use tracing_bot.Prelude.Table.{Table}
use tracing_bot.Topology.Types.{
  Time, Edge, EdgeOp, EdgeKey, PendingKey, PendingClientSpan, ServiceNode, ChangeEvent,
}

-- `LiveGraph` with its configuration; `max_edges` of 0 or less is no bound.
pub record LiveGraph : Type 0 where
  pub max_edges : ℕ
  pub new_edge_window : ℕ
  pub vanish_window : ℕ
  pub pending_ttl : ℕ
  pub edges : Table EdgeKey Edge
  pub services : Assoc (Assoc ServiceNode)
  pub pending : Table PendingKey PendingClientSpan
  pub ops : Assoc (Assoc EdgeOp)
  pub last_new_emit : Table EdgeKey Time
  pub evicted : ℕ
  pub insert_seq : Table EdgeKey ℕ
  pub next_seq : ℕ
  pub changes : List ChangeEvent

-- `NewLiveGraph`: a vanish window of 0 is an hour.
unfoldable pub new_live_graph : ℕ → ℕ → LiveGraph
new_live_graph max_edges vanished_after = record {
  max_edges = max_edges;
  new_edge_window = 86_400_000_000_000;
  vanish_window = if vanished_after == 0 then 3_600_000_000_000 else vanished_after;
  pending_ttl = 30_000_000_000;
  edges = [];
  services = [];
  pending = [];
  ops = [];
  last_new_emit = [];
  evicted = 0;
  insert_seq = [];
  next_seq = 0;
  changes = [];
}

unfoldable pub ensure_service : String → String → Time → LiveGraph → LiveGraph
ensure_service tid name now g =
    if str_eq name ""
    then g
    else let tset : Assoc ServiceNode = elim (lookup tid g.services) [ none ↦ [] | some m ↦ m ] in
      let node : ServiceNode = elim (lookup name tset) [
        | none ↦ record { tenant = tid; name = name; first_seen = now; last_seen = now }
        | some n ↦ record n { last_seen = now }
      ] in
      record g { services = put tid (put name node tset) g.services }

-- `emit`: the channel holds 256 events, and a full one loses its oldest.
unfoldable pub emit : ChangeEvent → List ChangeEvent → List ChangeEvent
emit ev [] = ev ∷ []
emit ev (old ∷ rest) =
    if ltb (length (old ∷ rest)) 256 then (old ∷ rest) ++ ev ∷ [] else rest ++ ev ∷ []

unfoldable pub has : LiveGraph → String → String → Bool
has g tid service = elim (lookup tid g.services) [
  | none ↦ false
  | some tset ↦ elim (lookup service tset) [ none ↦ false | some n ↦ true ]
]
