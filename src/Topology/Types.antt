-- ===== src/Topology/Types.antt =====
-- The types of internal/topology/topology.go and of livegraph.go, and what the graph reads of a span. The
-- resolution of an edge, which is always 10 seconds, is left out.
-- Times are in nanoseconds after Go's zero time; counters are uint64 and wrap around.
use tracing_bot.Prelude.{ℕ, ◌^◌, ◌%◌, String, Bool, ◌&&◌, Option, List, ◌==◌, str_eq}
use tracing_bot.Prelude.Assoc.{Assoc}

abbrev pub Time : Type 0
Time = ℕ

abbrev pub u64 : ℕ → ℕ
u64 n = n % 2 ^ 64

abbrev pub u32 : ℕ → ℕ
u32 n = n % 2 ^ 32

pub data Direction : Type 0 where
  upstream downstream both : Direction

pub record Edge : Type 0 where
  pub id : String
  pub tenant : String
  pub caller : String
  pub callee : String
  pub protocol : String
  pub bucket_start : Time
  pub calls : ℕ
  pub errors : ℕ
  pub duration_sum_nanos : ℕ
  pub hist : List ℕ
  pub first_seen : Time
  pub last_seen : Time
  pub is_new : Bool
  pub is_vanished : Bool

pub record EdgeOp : Type 0 where
  pub tenant : String
  pub edge_id : String
  pub callee_operation : String
  pub bucket_start : Time
  pub calls : ℕ
  pub errors : ℕ
  pub p99_nanos : ℕ

pub record EdgeKey : Type 0 where
  pub tenant : String
  pub caller : String
  pub callee : String
  pub protocol : String

abbrev pub edge_key_eq : EdgeKey → EdgeKey → Bool
edge_key_eq a b =
    str_eq a.tenant b.tenant
    && str_eq a.caller b.caller
    && str_eq a.callee b.callee
    && str_eq a.protocol b.protocol

pub record PendingKey : Type 0 where
  pub tenant : String
  pub trace_id : ℕ
  pub span_id : ℕ

abbrev pub pending_key_eq : PendingKey → PendingKey → Bool
pending_key_eq a b = str_eq a.tenant b.tenant && a.trace_id == b.trace_id && a.span_id == b.span_id

pub record PendingClientSpan : Type 0 where
  pub service : String
  pub protocol : String
  pub timestamp : Time

pub record ServiceNode : Type 0 where
  pub tenant : String
  pub name : String
  pub first_seen : Time
  pub last_seen : Time

pub data ChangeKind : Type 0 where
  new_edge vanished_edge : ChangeKind

pub record ChangeEvent : Type 0 where
  pub kind : ChangeKind
  pub edge : Edge
  pub detected : Time

pub record Neighborhood : Type 0 where
  pub root : String
  pub upstream : List String
  pub downstream : List String
  pub edges : List Edge
  pub hop_of : Assoc ℕ

pub data SpanKind : Type 0 where
  unspecified internal server client producer consumer : SpanKind

-- An attribute's value, as far as it is text.
pub record AttrValue : Type 0 where
  pub is_str : Bool
  pub str : String

pub record Span : Type 0 where
  pub trace_id : ℕ
  pub span_id : ℕ
  pub parent_span_id : ℕ
  pub name : String
  pub kind : SpanKind
  pub start_unix_nano : ℕ
  pub end_unix_nano : ℕ
  pub is_error : Bool
  pub attrs : Assoc AttrValue
  pub service : Option String
