-- ===== src/Topology/Consume.antt =====
-- internal/topology/livegraph.go: `Consume`, which takes a trace's spans and pairs clients with servers.
use tracing_bot.Prelude.{String, not, none, some, List, [], ◌∷◌, str_eq, if◌then◌else◌}
use tracing_bot.Prelude.Table.{find, store, erase}
use tracing_bot.Topology.Types.{
  Time, PendingKey, pending_key_eq, SpanKind, unspecified, internal, server, client, producer,
  consumer, Span,
}
use tracing_bot.Topology.Graph.{LiveGraph, ensure_service}
use tracing_bot.Topology.Spans.{protocol_of, extract_peer, service_of}
use tracing_bot.Topology.Upsert.{upsert_edge}

-- A CLIENT or PRODUCER span.
unfoldable pub consume_outgoing : String → Time → Span → LiveGraph → LiveGraph
unfolding extract_peer
consume_outgoing tid now span g =
    let (callee, protocol) = extract_peer span.attrs in
    if not (str_eq callee "")
    then upsert_edge tid (service_of span) callee protocol span.name now span g
    else record g {
      pending =
          store pending_key_eq
            (record { tenant = tid; trace_id = span.trace_id; span_id = span.span_id })
            (record {
              service = service_of span;
              protocol = protocol_of span.attrs;
              timestamp = now;
            })
            g.pending;
    }

-- A SERVER or CONSUMER span.
unfoldable pub consume_incoming : String → Time → Span → LiveGraph → LiveGraph
consume_incoming tid now span g =
    let key : PendingKey = record {
      tenant = tid;
      trace_id = span.trace_id;
      span_id = span.parent_span_id;
    } in
    elim (find pending_key_eq key g.pending) [
      | some entry ↦
          upsert_edge tid entry.service (service_of span) entry.protocol span.name now span
            (record g { pending = erase pending_key_eq key g.pending })
      | none ↦ upsert_edge tid "external" (service_of span) "unknown" span.name now span g
    ]

unfoldable pub by_kind : String → Time → Span → LiveGraph → SpanKind → LiveGraph
unfolding consume_outgoing consume_incoming
by_kind tid now span g client = consume_outgoing tid now span g
by_kind tid now span g producer = consume_outgoing tid now span g
by_kind tid now span g server = consume_incoming tid now span g
by_kind tid now span g consumer = consume_incoming tid now span g
by_kind tid now span g internal = g
by_kind tid now span g unspecified = g

-- One span of `Consume`.
unfoldable pub consume_span : String → Time → LiveGraph → Span → LiveGraph
unfolding by_kind
consume_span tid now g span =
    by_kind tid now span (ensure_service tid (service_of span) now g) span.kind

-- `Consume`.
unfoldable pub consume : String → Time → List Span → LiveGraph → LiveGraph
unfolding consume_span
consume tid now [] g = g
consume tid now (s ∷ ss) g = consume tid now ss (consume_span tid now g s)
