-- ===== src/Ingest/Queue.antt =====
-- internal/ingest/queue.go: the bounded queue in front of a sink. Several goroutines push while one
-- drains, so each access to shared memory is an operation of its own: the load of the byte counter,
-- the send on the channel, the updates of the counter, and the receive.
pub mod Interleaving
pub mod Delivery
pub mod Bounds
pub mod Pushes
use tracing_bot.Prelude.{
  ℕ, ◌+◌, String, Bool, true, false, ◌&&◌, Option, none, some, List, [], ◌∷◌, ◌++◌, ltb, str_eq,
  if◌then◌else◌, length, leb,
}
use tracing_bot.Prelude.Bytes.{Bytes}
use tracing_bot.Prelude.Int.{ℤ, pos, leb_ℤ, pos_part}

-- A span is its bytes: the queue does not look into it. `bytes` is a uint32.
pub record QueuedBatch : Type 0 where
  pub tenant : String
  pub spans : List Bytes
  pub bytes : ℕ

-- A negative bound or timeout behaves as 0.
pub record IngestQueueConfig : Type 0 where
  pub capacity : ℤ
  pub max_bytes : ℕ
  pub enqueue_timeout : ℕ
  pub overflow_policy : String

-- The atomic counter `bytes` is `added` less `removed`. `delivered` is not in the source: the batches
-- that the sink was given, oldest first.
pub record SinkQueue : Type 0 where
  pub cfg : IngestQueueConfig
  pub capacity : ℕ
  pub ch : List QueuedBatch
  pub added : ℕ
  pub removed : ℕ
  pub delivered : List QueuedBatch

unfoldable pub new_sink_queue : IngestQueueConfig → SinkQueue
new_sink_queue c = record {
  cfg = c;
  capacity = if leb_ℤ c.capacity (pos 0) then 1 else pos_part c.capacity;
  ch = [];
  added = 0;
  removed = 0;
  delivered = [];
}

-- The test of the byte bound in `tryEnqueue`.
unfoldable pub has_room : SinkQueue → QueuedBatch → Bool
has_room q b =
    if ltb 0 q.cfg.max_bytes then leb (q.added + b.bytes) (q.cfg.max_bytes + q.removed) else true

-- The `select` of `tryEnqueue`: `none` is its `default`.
unfoldable pub send : SinkQueue → QueuedBatch → Option SinkQueue
send q b = if ltb (length q.ch) q.capacity then some (record q { ch = q.ch ++ b ∷ [] }) else none

-- `atomic.AddInt64(&q.bytes, b.bytes)`.
unfoldable pub count : SinkQueue → QueuedBatch → SinkQueue
count q b = record q { added = q.added + b.bytes }

abbrev counted : SinkQueue → QueuedBatch → Option SinkQueue → SinkQueue × Bool
counted q b none = (q, false)
counted q b (some r) = (count r b, true)

-- `tryEnqueue` with nothing in between.
unfoldable pub try_enqueue : SinkQueue → QueuedBatch → SinkQueue × Bool
unfolding has_room send count
try_enqueue q b = if has_room q b then counted q b (send q b) else (q, false)

-- What `push` comes to; `waits` is its `select` on the timer and the context.
pub data PushOutcome : Type 0 where
  accepted queue_full queue_full_after_wait cancelled waits : PushOutcome

abbrev may_wait : IngestQueueConfig → Bool
may_wait c = str_eq c.overflow_policy "block_up_to_timeout" && ltb 0 c.enqueue_timeout

unfoldable pub push : SinkQueue → QueuedBatch → SinkQueue × PushOutcome
unfolding try_enqueue
push q b =
    let (r, ok) = try_enqueue q b in
    (r, if ok then accepted else if may_wait q.cfg then waits else queue_full)

-- What wakes a push that waits.
pub data Wake : Type 0 where
  timer done : Wake

unfoldable pub push_woken : SinkQueue → QueuedBatch → Wake → SinkQueue × PushOutcome
unfolding try_enqueue
push_woken q b done = (q, cancelled)
push_woken q b timer =
    let (r, ok) = try_enqueue q b in (r, if ok then accepted else queue_full_after_wait)

-- `consume`: the sink's error is ignored, as in the source.
unfoldable pub consume : SinkQueue → QueuedBatch → SinkQueue
consume q b = record q { removed = q.removed + b.bytes; delivered = q.delivered ++ b ∷ [] }

-- `<-q.ch`, where the channel holds a batch.
abbrev pub taken : SinkQueue → List QueuedBatch → Option (QueuedBatch × SinkQueue)
taken q [] = none
taken q (b ∷ rest) = some (b, record q { ch = rest })

unfoldable pub receive : SinkQueue → Option (QueuedBatch × SinkQueue)
receive q = taken q q.ch

-- `drainRemaining`, over the batches that the channel holds.
abbrev pub drain_all : List QueuedBatch → SinkQueue → SinkQueue
drain_all [] q = q
drain_all (b ∷ rest) q = drain_all rest (consume (record q { ch = rest }) b)

unfoldable pub drain_remaining : SinkQueue → SinkQueue
unfolding consume
drain_remaining q = drain_all q.ch q
