-- ===== src/Topology/Calls/Rule.antt =====
-- An invariant that the parts of each call keep is kept by all calls.
use tracing_bot.Prelude.{String, not, List, [], ◌∷◌, str_eq, if_elim, opt_elim, ℕ}
use tracing_bot.Prelude.Assoc.{Assoc}
use tracing_bot.Prelude.Table.{Table, find}
use tracing_bot.Topology.Types.{
  Time, Edge, EdgeKey, PendingKey, pending_key_eq, PendingClientSpan, ServiceNode, ChangeEvent,
  SpanKind, unspecified, internal, server, client, producer, consumer, Span,
}
use tracing_bot.Topology.Graph.{LiveGraph, ensure_service}
use tracing_bot.Topology.Spans.{extract_peer, service_of}
use tracing_bot.Topology.Upsert.{upsert_key, upsert_edge}
use tracing_bot.Topology.Consume.{
  consume_outgoing, consume_incoming, by_kind, consume_span, consume,
}
use tracing_bot.Topology.Sweep.{vanish, sweep_vanished, sweep_pending, warm_start}
use tracing_bot.Topology.Calls.{
  GraphCall, consume_call, sweep_vanished_call, sweep_pending_call, warm_start_call, after_call,
  after_calls,
}

pub record IsKept (P : LiveGraph → Type 0) : Type 0 where
  pub upsert :
      (k : EdgeKey) (operation : String) (ts : Time) (s : Span) (g : LiveGraph)
      → P g
      → P (upsert_key k operation ts s g)
  pub services :
      (m : Assoc (Assoc ServiceNode)) (g : LiveGraph) → P g → P (record g { services = m })
  pub pending :
      (m : Table PendingKey PendingClientSpan) (g : LiveGraph) → P g → P (record g { pending = m })
  pub vanished :
      (window : ℕ) (now : Time) (changes : List ChangeEvent) (g : LiveGraph)
      → P g
      → P (record g { edges = (vanish window now g.edges).0; changes = changes })
  pub loaded : (es : List Edge) (g : LiveGraph) → P g → P (warm_start es g)

module _ {P : LiveGraph → Type 0} (kept : IsKept P) where
  consume_outgoing-IsKept :
      (tid : String) (now : Time) (s : Span) (g : LiveGraph)
      → P g
      → P (consume_outgoing tid now s g)
  unfolding consume_outgoing upsert_edge
  consume_outgoing-IsKept tid now s g h =
      if_elim P (not (str_eq (extract_peer s.attrs).0 "")) (λ _. kept.upsert _ s.name now s g h)
        (λ _. kept.pending _ g h)

  consume_incoming-IsKept :
      (tid : String) (now : Time) (s : Span) (g : LiveGraph)
      → P g
      → P (consume_incoming tid now s g)
  unfolding consume_incoming upsert_edge
  consume_incoming-IsKept tid now s g h =
      opt_elim P (find pending_key_eq _ g.pending) (λ _. kept.upsert _ s.name now s g h)
        (λ x _. kept.upsert _ s.name now s _ (kept.pending _ g h))

  by_kind-IsKept :
      (tid : String) (now : Time) (s : Span) (g : LiveGraph) (kind : SpanKind)
      → P g
      → P (by_kind tid now s g kind)
  unfolding by_kind
  by_kind-IsKept tid now s g client h = consume_outgoing-IsKept tid now s g h
  by_kind-IsKept tid now s g producer h = consume_outgoing-IsKept tid now s g h
  by_kind-IsKept tid now s g server h = consume_incoming-IsKept tid now s g h
  by_kind-IsKept tid now s g consumer h = consume_incoming-IsKept tid now s g h
  by_kind-IsKept tid now s g internal h = h
  by_kind-IsKept tid now s g unspecified h = h

  ensure_service-IsKept :
      (tid name : String) (now : Time) (g : LiveGraph) → P g → P (ensure_service tid name now g)
  unfolding ensure_service
  ensure_service-IsKept tid name now g h =
      if_elim P (str_eq name "") (λ _. h) (λ _. kept.services _ g h)

  consume-IsKept :
      (tid : String) (now : Time) (ss : List Span) (g : LiveGraph) → P g → P (consume tid now ss g)
  unfolding consume consume_span
  consume-IsKept tid now [] g h = h
  consume-IsKept tid now (s ∷ ss) g h =
      consume-IsKept tid now ss _
        (by_kind-IsKept tid now s _ s.kind (ensure_service-IsKept tid (service_of s) now g h))

  after_call-IsKept : (c : GraphCall) (g : LiveGraph) → P g → P (after_call c g)
  unfolding after_call sweep_vanished sweep_pending
  after_call-IsKept (consume_call tid now ss) g h = consume-IsKept tid now ss g h
  after_call-IsKept (sweep_vanished_call now) g h = kept.vanished g.vanish_window now _ g h
  after_call-IsKept (sweep_pending_call now) g h = kept.pending _ g h
  after_call-IsKept (warm_start_call es) g h = kept.loaded es g h

  pub after_calls-IsKept : (cs : List GraphCall) (g : LiveGraph) → P g → P (after_calls cs g)
  unfolding after_calls
  after_calls-IsKept [] g h = h
  after_calls-IsKept (c ∷ cs) g h = after_calls-IsKept cs (after_call c g) (after_call-IsKept c g h)
