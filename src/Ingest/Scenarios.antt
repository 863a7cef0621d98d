-- ===== src/Ingest/Scenarios.antt =====
-- A queue of two batches and ten bytes.
use tracing_bot.Prelude.{ℕ, ◌⊎◌, ◌≤◌, ◌+◌, ◌≡◌, refl, [], ◌∷◌, arith, length}
use tracing_bot.Prelude.Int.{pos, ◌≤ℤ◌}
use tracing_bot.Ingest.Queue.{
  QueuedBatch, IngestQueueConfig, SinkQueue, new_sink_queue, has_room, send, count, drain_remaining,
  push, push_woken, timer,
}
use tracing_bot.Ingest.Queue.Interleaving.{
  System, start, tested, sent, counts, Steps, here, next, Any, sum_bytes,
}
use tracing_bot.Ingest.Queue.Delivery.{drain_remaining-Steps}
use tracing_bot.Ingest.Queue.Bounds.{length-Steps, has_room-overshoot}
use tracing_bot.Ingest.Queue.Pushes.{Enters, push-Enters}

abbrev cfg : IngestQueueConfig
cfg = record {
  capacity = pos 2;
  max_bytes = 10;
  enqueue_timeout = 100;
  overflow_policy = "block_up_to_timeout";
}

abbrev batch : ℕ → QueuedBatch
batch n = record { tenant = "acme"; spans = []; bytes = n }

abbrev queue_at : QueuedBatch → ℕ → SinkQueue
queue_at b n = record (new_sink_queue cfg) { ch = b ∷ []; added = n }

abbrev tested_one : System
tested_one = record (start cfg) { sending = batch 6 ∷ [] }

abbrev sent_one : System
sent_one = record (start cfg) {
  queue = queue_at (batch 6) 0;
  counting = batch 6 ∷ [];
  entered = batch 6 ∷ [];
}

abbrev counted_one : System
counted_one = record (start cfg) { queue = queue_at (batch 6) 6; entered = batch 6 ∷ [] }

one_push :
    (P : System → Type 0)
    → P tested_one
    → P sent_one
    → P counted_one
    → Steps P (start cfg) counted_one
unfolding new_sink_queue has_room send count
one_push P a b c =
    next
      (next (next here (tested (batch 6) refl) a)
        (sent [] [] (batch 6) (queue_at (batch 6) 0) refl refl) b)
      (counts [] [] (batch 6) refl) c

length-Steps_example :
    (pos (length counted_one.queue.ch) ≤ℤ cfg.capacity)
    ⊎ ((cfg.capacity ≤ℤ pos 0) × (length counted_one.queue.ch ≤ 1))
length-Steps_example = length-Steps cfg counted_one (one_push Any tt tt tt)

drain_remaining-Steps_example :
    let r = drain_remaining counted_one.queue in
    (r.ch ≡ []) × (r.delivered ≡ counted_one.entered) × (r.added ≡ r.removed)
drain_remaining-Steps_example =
    drain_remaining-Steps cfg Any counted_one (one_push Any tt tt tt) refl refl

has_room-overshoot_example :
    (s : System) × Steps Any (start cfg) s
    × (sum_bytes s.queue.ch ≡ (batch 6).bytes + (batch 7).bytes)
has_room-overshoot_example =
    has_room-overshoot cfg (batch 6) (batch 7) (omega arith) (omega arith) (omega arith)

push-Enters_example :
    Enters counted_one (batch 7) (push counted_one.queue (batch 7))
    × Enters counted_one (batch 7) (push_woken counted_one.queue (batch 7) timer)
push-Enters_example = push-Enters counted_one (batch 7) timer
