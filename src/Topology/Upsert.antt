-- ===== src/Topology/Upsert.antt =====
-- internal/topology/livegraph.go: `upsertEdge`, a call seen between two services.
use tracing_bot.Prelude.{
  ℕ, ◌+◌, ◌-◌, ◌%◌, String, Bool, true, false, ◌&&◌, not, none, some, List, [], ◌∷◌, ltb, str_eq,
  if◌then◌else◌,
}
use tracing_bot.Prelude.Assoc.{Assoc, lookup, put}
use tracing_bot.Prelude.Table.{Table, find, store}
use tracing_bot.Topology.Types.{Time, u64, Edge, EdgeOp, EdgeKey, edge_key_eq, new_edge, Span}
use tracing_bot.Topology.Graph.{LiveGraph, emit}
use tracing_bot.Topology.Spans.{edge_id_for, add_to_hist, duration_of}
use tracing_bot.Topology.Evict.{evict_if_needed}

abbrev pub zero_hist : List ℕ
zero_hist = 0 ∷ 0 ∷ 0 ∷ 0 ∷ 0 ∷ 0 ∷ 0 ∷ 0 ∷ 0 ∷ 0 ∷ 0 ∷ 0 ∷ 0 ∷ 0 ∷ 0 ∷ 0 ∷ []

abbrev pub fresh_edge : EdgeKey → Time → Edge
fresh_edge k ts = record {
  id = edge_id_for k.caller k.callee k.protocol;
  tenant = k.tenant;
  caller = k.caller;
  callee = k.callee;
  protocol = k.protocol;
  bucket_start = 0;
  calls = 0;
  errors = 0;
  duration_sum_nanos = 0;
  hist = zero_hist;
  first_seen = ts;
  last_seen = 0;
  is_new = false;
  is_vanished = false;
}

-- `ts.Truncate(d)`, which counts from the zero time.
abbrev pub truncate : Time → ℕ → Time
truncate ts d = ts - ts % d

-- A call added to an edge.
abbrev pub bump_edge : Edge → Time → Span → Edge
bump_edge e ts span = record e {
  calls = u64 (e.calls + 1);
  errors = if span.is_error then u64 (e.errors + 1) else e.errors;
  duration_sum_nanos = u64 (e.duration_sum_nanos + duration_of span);
  hist = add_to_hist e.hist (duration_of span);
  last_seen = ts;
  bucket_start = truncate ts 10_000_000_000;
  is_vanished = false;
}

-- A fresh edge for the key, before the eviction.
abbrev pub insert_fresh : EdgeKey → Time → Span → LiveGraph → LiveGraph
insert_fresh k ts span g = record g {
  edges = store edge_key_eq k (bump_edge (fresh_edge k ts) ts span) g.edges;
  insert_seq = store edge_key_eq k (g.next_seq + 1) g.insert_seq;
  next_seq = g.next_seq + 1;
}

-- The edge of the key, or a fresh one with a place in the order of insertion.
unfoldable pub or_insert : EdgeKey → Time → Span → LiveGraph → LiveGraph
or_insert k ts span g = elim (find edge_key_eq k g.edges) [
  | some e ↦ record g { edges = store edge_key_eq k (bump_edge e ts span) g.edges }
  | none ↦ evict_if_needed (insert_fresh k ts span g)
]

-- Whether a sighting emits `NewEdge`.
abbrev pub is_new_sighting : LiveGraph → EdgeKey → Time → Bool
is_new_sighting g k ts = elim (find edge_key_eq k g.last_new_emit) [
  | none ↦ true
  | some last ↦ ltb (last + g.new_edge_window) ts
]

-- The write `e.IsNew = isNew` through the pointer: an evicted edge is no longer in the map.
unfoldable pub mark_new : EdgeKey → Bool → Table EdgeKey Edge → Table EdgeKey Edge
mark_new k fresh m = elim (find edge_key_eq k m) [
  | none ↦ m
  | some e ↦ store edge_key_eq k (record e { is_new = fresh }) m
]

-- The operation's row of the edge.
unfoldable pub count_op :
    String → String → String → Time → Span → Assoc (Assoc EdgeOp) → Assoc (Assoc EdgeOp)
count_op tid edge_id operation ts span ops =
    let of_edge : Assoc EdgeOp = elim (lookup edge_id ops) [ none ↦ [] | some m ↦ m ] in
    let op : EdgeOp = elim (lookup operation of_edge) [
      | some o ↦ o
      | none ↦ record {
        tenant = tid;
        edge_id = edge_id;
        callee_operation = operation;
        bucket_start = truncate ts 3_600_000_000_000;
        calls = 0;
        errors = 0;
        p99_nanos = 0;
      }
    ] in
    let op' = record op {
      calls = u64 (op.calls + 1);
      errors = if span.is_error then u64 (op.errors + 1) else op.errors;
      p99_nanos = if ltb op.p99_nanos (duration_of span) then duration_of span else op.p99_nanos;
    } in
    put edge_id (put operation op' of_edge) ops

-- The edge as it is after the call, in the map or not.
abbrev pub seen_edge : EdgeKey → Time → Span → Table EdgeKey Edge → Edge
seen_edge k ts span m = elim (find edge_key_eq k m) [
  | some e ↦ bump_edge e ts span
  | none ↦ bump_edge (fresh_edge k ts) ts span
]

abbrev pub key_of : String → String → String → String → EdgeKey
key_of tid caller callee protocol =
    let internal_call = not (str_eq caller "") && str_eq caller callee in
    record {
      tenant = tid;
      caller = caller;
      callee = callee;
      protocol = if internal_call then "internal" else protocol;
    }

-- `upsertEdge` once its key is known.
unfoldable pub upsert_key : EdgeKey → String → Time → Span → LiveGraph → LiveGraph
unfolding mark_new count_op
upsert_key k operation ts span g =
    let g' = or_insert k ts span g in
    let fresh = is_new_sighting g' k ts in
    let e = record (seen_edge k ts span g.edges) { is_new = fresh } in
    record g' {
      edges = mark_new k fresh g'.edges;
      last_new_emit = store edge_key_eq k ts g'.last_new_emit;
      ops = if str_eq operation "" then g'.ops else count_op k.tenant e.id operation ts span g'.ops;
      changes =
          if fresh
          then emit (record { kind = new_edge; edge = e; detected = ts }) g'.changes
          else g'.changes;
    }

unfoldable pub upsert_edge :
    String → String → String → String → String → Time → Span → LiveGraph → LiveGraph
unfolding upsert_key
upsert_edge tid caller callee protocol operation ts span g =
    upsert_key (key_of tid caller callee protocol) operation ts span g
