-- ===== src/Topology/Scenarios.antt =====
-- Small graphs, and the theorems at them.
use tracing_bot.Prelude.{
  ◌/◌, length, String, true, false, some, List, [], ◌∷◌, ◌≡◌, refl, arith, map,
}
use tracing_bot.Prelude.Assoc.{lookup, put}
use tracing_bot.Prelude.Table.{Table, find, store, erase}
use tracing_bot.Topology.Types.{Time, downstream, Edge, EdgeKey, client, Span}
use tracing_bot.Topology.Graph.{LiveGraph, new_live_graph, ensure_service}
use tracing_bot.Topology.Evict.{evict_if_needed}
use tracing_bot.Topology.Upsert.{fresh_edge, or_insert, key_of, upsert_edge}
use tracing_bot.Topology.Consume.{consume_span, consume}
use tracing_bot.Topology.Calls.{GraphCall, consume_call, after_call, after_calls}
use tracing_bot.Topology.Bound.{IsBounded, after_calls-IsBounded}
use tracing_bot.Topology.Spans.{bucket_index}
use tracing_bot.Topology.Spans.Buckets.{IsBucket, bucket_index-IsBucket}
use tracing_bot.Topology.Neighbors.{visit_frontier, levels, neighbors}
use tracing_bot.Topology.Neighbors.Hops.{IsDistance, neighbors-IsDistance}

-- A client span that names its peer.
abbrev client_span : String → String → Span
client_span from to = record {
  trace_id = 1;
  span_id = 2;
  parent_span_id = 0;
  name = "GET";
  kind = client;
  start_unix_nano = 5_000_000;
  end_unix_nano = 8_000_000;
  is_error = false;
  attrs =
      ("peer.service", record { is_str = true; str = to })
      ∷ ("http.method", record { is_str = true; str = "GET" })
      ∷ [];
  service = some from;
}

abbrev now : Time
now = 100_000_000_000

abbrev two_calls : List GraphCall
two_calls =
    consume_call "acme" now (client_span "web" "cart" ∷ client_span "web" "cart" ∷ [])
    ∷ consume_call "acme" now (client_span "cart" "stock" ∷ [])
    ∷ []

abbrev third_key : EdgeKey
third_key = key_of "acme" "web" "pay" "http"

after_calls-IsBounded_example : IsBounded 1 (after_calls two_calls (new_live_graph 1 0))
after_calls-IsBounded_example = after_calls-IsBounded 1 0 two_calls (omega arith)

abbrev full_graph : LiveGraph
full_graph = after_calls two_calls (new_live_graph 2 0)

-- With equal calls and last sights, the edge that was inserted first goes.
evicted-first :
    map (λ x. x.1.callee) (or_insert third_key now (client_span "web" "pay") full_graph).edges
    ≡ "cart" ∷ "pay" ∷ []
unfolding after_calls after_call consume consume_span upsert_edge find lookup or_insert
    ensure_service new_live_graph evict_if_needed store erase
evicted-first = refl

-- The second edge is the coldest when it comes: it is dropped, and its companions are written afterwards.
companions-left :
    let g = after_calls two_calls (new_live_graph 1 0) in
    (map (λ x. x.1.callee) g.edges ≡ "cart" ∷ [])
    × (length g.last_new_emit ≡ 2)
    × (length g.ops ≡ 2)
unfolding after_calls after_call consume consume_span upsert_edge find lookup or_insert
    ensure_service new_live_graph evict_if_needed store erase put
companions-left = (refl, refl, refl)

-- web calls cart, and cart calls stock.
abbrev chain : Table EdgeKey Edge
chain =
    (key_of "acme" "web" "cart" "http", fresh_edge (key_of "acme" "web" "cart" "http") now)
    ∷ (key_of "acme" "cart" "stock" "http", fresh_edge (key_of "acme" "cart" "stock" "http") now)
    ∷ (key_of "other" "web" "pay" "http", fresh_edge (key_of "other" "web" "pay" "http") now)
    ∷ []

hops_from_web :
    (neighbors chain "acme" "web" 2 downstream).hop_of
    ≡ ("web", 0) ∷ ("cart", 1) ∷ ("stock", 2) ∷ []
unfolding neighbors levels visit_frontier lookup put
hops_from_web = refl

neighbors-IsDistance_example :
    IsDistance chain "acme" downstream "web" 2 (neighbors chain "acme" "web" 2 downstream).hop_of
neighbors-IsDistance_example = neighbors-IsDistance chain "acme" "web" 2 downstream

bucket_index-IsBucket_example : IsBucket (3_500_000 / 1_000_000) (bucket_index 3_500_000)
bucket_index-IsBucket_example = bucket_index-IsBucket 3_500_000
