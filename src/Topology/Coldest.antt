-- ===== src/Topology/Coldest.antt =====
-- A full graph that gets an unseen edge loses the coldest one, in whichever order the map is visited.
use tracing_bot.Prelude.{String, str_eq, ℕ, ◌+◌, ◌<◌, none, some, List, ◌≡◌, ◌≢◌}
use mathlib.Core.List.{Memᴰ}
use mathlib.Core.List.Memᴰ
use tracing_bot.Prelude.Table.{Table, find}
use tracing_bot.Topology.Types.{Edge, EdgeKey, edge_key_eq}
use tracing_bot.Topology.Graph.{LiveGraph}

-- `a` has fewer calls than `b`, or as many and an earlier last sight, or the same of both and an earlier place
-- in the order of insertion.
pub data IsColder (g : LiveGraph) (a b : EdgeKey × Edge) : Type 0 where
  by_calls : a.1.calls < b.1.calls → IsColder g a b
  by_sight : a.1.calls ≡ b.1.calls → a.1.last_seen < b.1.last_seen → IsColder g a b
  by_place :
      (i j : ℕ)
      → a.1.calls ≡ b.1.calls
      → a.1.last_seen ≡ b.1.last_seen
      → find edge_key_eq a.0 g.insert_seq ≡ some i
      → find edge_key_eq b.0 g.insert_seq ≡ some j
      → i < j
      → IsColder g a b

-- `v` is in the graph, and colder there than every other edge.
pub record IsColdest (g : LiveGraph) (v : EdgeKey × Edge) : Type 0 where
  pub present : Memᴰ v g.edges
  pub coldest : (y : EdgeKey × Edge) → Memᴰ y g.edges → y.0 ≢ v.0 → IsColder g v y

-- `out` is `g` without the edge `v` and without what the graph keeps beside it; nothing else is missing.
pub record IsWithout (v : EdgeKey × Edge) (g out : LiveGraph) : Type 0 where
  pub edge_gone : find edge_key_eq v.0 out.edges ≡ none
  pub place_gone : find edge_key_eq v.0 out.insert_seq ≡ none
  pub sighting_gone : find edge_key_eq v.0 out.last_new_emit ≡ none
  pub ops_gone : find str_eq v.1.id out.ops ≡ none
  pub edges_kept :
      (j : EdgeKey) → j ≢ v.0 → find edge_key_eq j out.edges ≡ find edge_key_eq j g.edges
  pub places_kept :
      (j : EdgeKey) → j ≢ v.0 → find edge_key_eq j out.insert_seq ≡ find edge_key_eq j g.insert_seq
  pub sightings_kept :
      (j : EdgeKey)
      → j ≢ v.0
      → find edge_key_eq j out.last_new_emit ≡ find edge_key_eq j g.last_new_emit
  pub ops_kept : (id : String) → id ≢ v.1.id → find str_eq id out.ops ≡ find str_eq id g.ops
  pub counted : out.evicted ≡ g.evicted + 1
