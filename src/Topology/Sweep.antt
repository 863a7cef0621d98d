-- ===== src/Topology/Sweep.antt =====
-- internal/topology/livegraph.go: `sweepVanished`, `sweepPending` and `WarmStart`.
use tracing_bot.Prelude.{ℕ, ◌+◌, true, ◌&&◌, not, none, some, List, [], ◌∷◌, ltb, if◌then◌else◌}
use tracing_bot.Prelude.Table.{Table, find, store}
use tracing_bot.Topology.Types.{
  Time, Edge, EdgeKey, edge_key_eq, PendingKey, PendingClientSpan, vanished_edge, ChangeEvent,
}
use tracing_bot.Topology.Graph.{LiveGraph, emit}
use tracing_bot.Topology.Evict.{evict_if_needed}

-- The loop of `sweepVanished`: the edges, and the events in their order.
unfoldable pub vanish : ℕ → Time → Table EdgeKey Edge → Table EdgeKey Edge × List ChangeEvent
vanish window now [] = ([], [])
vanish window now ((k, e) ∷ m) =
    let (rest, events) = vanish window now m in
    let e' = record e { is_vanished = true } in
    if not e.is_vanished && ltb (e.last_seen + window) now
    then ((k, e') ∷ rest, record { kind = vanished_edge; edge = e'; detected = now } ∷ events)
    else ((k, e) ∷ rest, events)

unfoldable pub emit_all : List ChangeEvent → List ChangeEvent → List ChangeEvent
emit_all [] ch = ch
emit_all (ev ∷ evs) ch = emit_all evs (emit ev ch)

-- `sweepVanished`: the graph and the events that it returns.
unfoldable pub sweep_vanished : Time → LiveGraph → LiveGraph × List ChangeEvent
unfolding vanish emit_all
sweep_vanished now g =
    let (edges, events) = vanish g.vanish_window now g.edges in
    (record g { edges = edges; changes = emit_all events g.changes }, events)

unfoldable pub expire_pending :
    ℕ → Time → Table PendingKey PendingClientSpan → Table PendingKey PendingClientSpan × ℕ
expire_pending ttl now [] = ([], 0)
expire_pending ttl now ((k, p) ∷ m) =
    let (rest, n) = expire_pending ttl now m in
    if ltb (p.timestamp + ttl) now then (rest, n + 1) else ((k, p) ∷ rest, n)

-- `sweepPending`.
unfoldable pub sweep_pending : Time → LiveGraph → LiveGraph × ℕ
unfolding expire_pending
sweep_pending now g =
    let (pending, n) = expire_pending g.pending_ttl now g.pending in
    (record g { pending = pending }, n)

-- One loaded edge of `WarmStart`.
abbrev pub install : LiveGraph → Edge → LiveGraph
install g e =
    let k : EdgeKey = record {
      tenant = e.tenant;
      caller = e.caller;
      callee = e.callee;
      protocol = e.protocol;
    } in
    elim (find edge_key_eq k g.edges) [
      | some old ↦ record g { edges = store edge_key_eq k e g.edges }
      | none ↦ record g {
        edges = store edge_key_eq k e g.edges;
        insert_seq = store edge_key_eq k (g.next_seq + 1) g.insert_seq;
        next_seq = g.next_seq + 1;
      }
    ]

unfoldable pub install_all : List Edge → LiveGraph → LiveGraph
install_all [] g = g
install_all (e ∷ es) g = install_all es (install g e)

-- `WarmStart` with the edges that the source gives.
unfoldable pub warm_start : List Edge → LiveGraph → LiveGraph
unfolding install_all
warm_start loaded g = evict_if_needed (install_all loaded g)
