-- ===== src/Topology/Calls.antt =====
-- internal/topology: the calls that write to a live graph, in any order.
pub mod Rule
use tracing_bot.Prelude.{String, List, [], ◌∷◌}
use tracing_bot.Topology.Types.{
  Time, u64, u32, Direction, upstream, downstream, both, Edge, EdgeOp, EdgeKey, edge_key_eq,
  PendingKey, pending_key_eq, PendingClientSpan, ServiceNode, ChangeKind, new_edge, vanished_edge,
  ChangeEvent, Neighborhood, SpanKind, unspecified, internal, server, client, producer, consumer,
  AttrValue, Span,
}
use tracing_bot.Topology.Graph.{LiveGraph, new_live_graph, ensure_service, emit, has}
use tracing_bot.Topology.Consume.{
  consume_outgoing, consume_incoming, by_kind, consume_span, consume,
}
use tracing_bot.Topology.Sweep.{
  vanish, emit_all, sweep_vanished, expire_pending, sweep_pending, install, install_all, warm_start,
}

-- The calls that write to the graph.
pub data GraphCall : Type 0 where
  consume_call : String → Time → List Span → GraphCall
  sweep_vanished_call : Time → GraphCall
  sweep_pending_call : Time → GraphCall
  warm_start_call : List Edge → GraphCall

unfoldable pub after_call : GraphCall → LiveGraph → LiveGraph
after_call (consume_call tid now spans) g = consume tid now spans g
after_call (sweep_vanished_call now) g = (sweep_vanished now g).0
after_call (sweep_pending_call now) g = (sweep_pending now g).0
after_call (warm_start_call loaded) g = warm_start loaded g

unfoldable pub after_calls : List GraphCall → LiveGraph → LiveGraph
unfolding after_call
after_calls [] g = g
after_calls (c ∷ cs) g = after_calls cs (after_call c g)
