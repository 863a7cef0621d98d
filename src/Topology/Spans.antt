-- ===== src/Topology/Spans.antt =====
-- internal/topology/livegraph.go: what the graph reads of a span, and the histogram of durations.
pub mod Buckets
use tracing_bot.Prelude.{
  ℕ, zero, suc, ◌+◌, ◌-◌, ◌*◌, ◌/◌, String, Bool, true, false, ◌&&◌, not, Option, none, some, List,
  [], ◌∷◌, ltb, leb, str_eq, if◌then◌else◌,
}
use tracing_bot.Prelude.Assoc.{Assoc, lookup}
use Prim.Native.String.{◌++◌ as join}
use tracing_bot.Topology.Types.{u32, AttrValue, Span}

-- `strAttr`: `none` is its false.
unfoldable pub str_attr : Assoc AttrValue → String → Option String
str_attr attrs key = elim (lookup key attrs) [
  | none ↦ none
  | some v ↦ if v.is_str && not (str_eq v.str "") then some v.str else none
]

abbrev pub has_attr : Assoc AttrValue → String → Bool
has_attr attrs key = elim (lookup key attrs) [ none ↦ false | some v ↦ true ]

unfoldable pub protocol_of : Assoc AttrValue → String
protocol_of attrs =
    if has_attr attrs "rpc.system"
    then "grpc"
    else if has_attr attrs "http.request.method"
    then "http"
    else if has_attr attrs "http.method"
    then "http"
    else if has_attr attrs "db.system"
    then "db"
    else if has_attr attrs "messaging.system"
    then "messaging"
    else "unknown"

-- `extractPeer`: the callee and the protocol.
unfoldable pub extract_peer : Assoc AttrValue → String × String
unfolding str_attr protocol_of
extract_peer attrs = elim (str_attr attrs "peer.service") [
  | some v ↦ (v, protocol_of attrs)
  | none ↦ elim (str_attr attrs "server.address") [
    | some v ↦ (v, protocol_of attrs)
    | none ↦ elim (str_attr attrs "db.system") [
      | some v ↦ (join "db:" v, "db")
      | none ↦ elim (str_attr attrs "messaging.destination.name") [
        | some v ↦ (v, "messaging")
        | none ↦ ("", "unknown")
      ]
    ]
  ]
]

-- `edgeIDFor`: the tenant is no part of it.
abbrev pub edge_id_for : String → String → String → String
edge_id_for caller callee protocol = join caller (join "\0" (join callee (join "\0" protocol)))

-- The loop of `bucketIndex`, with the rounds that `idx < 15` leaves it.
unfoldable pub bucket_loop : ℕ → ℕ → ℕ → ℕ → ℕ
bucket_loop zero ms idx bound = idx
bucket_loop (suc n) ms idx bound =
    let rest = bucket_loop n ms (idx + 1) (bound * 2) in if leb (bound * 2) ms then rest else idx

unfoldable pub bucket_index : ℕ → ℕ
unfolding bucket_loop
bucket_index nanos = if ltb (nanos / 1_000_000) 1 then 0 else bucket_loop 15 (nanos / 1_000_000) 0 1

unfoldable pub increment_at : ℕ → List ℕ → List ℕ
increment_at i [] = []
increment_at zero (n ∷ ns) = u32 (n + 1) ∷ ns
increment_at (suc i) (n ∷ ns) = n ∷ increment_at i ns

unfoldable pub add_to_hist : List ℕ → ℕ → List ℕ
unfolding increment_at bucket_index
add_to_hist hist nanos = increment_at (bucket_index nanos) hist

-- A span's duration, 0 where it ends before it starts.
abbrev pub duration_of : Span → ℕ
duration_of s =
    if ltb s.start_unix_nano s.end_unix_nano then s.end_unix_nano - s.start_unix_nano else 0

abbrev pub service_of : Span → String
service_of s = elim s.service [ none ↦ "" | some n ↦ n ]
