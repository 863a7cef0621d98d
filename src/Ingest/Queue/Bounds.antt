-- ===== src/Ingest/Queue/Bounds.antt =====
-- queue.go: the bound in batches, and what is left of the bound in bytes.
use tracing_bot.Prelude.{◌⊎◌, ◌∙◌, ◌+◌, ◌≤◌, ◌≡◌, refl, ap, true, some, [], ◌∷◌, arith, length}
use tracing_bot.Prelude.Int.{pos, ◌≤ℤ◌}
use tracing_bot.Ingest.Queue.{
  QueuedBatch, IngestQueueConfig, SinkQueue, new_sink_queue, has_room, send, count, consume,
}
use tracing_bot.Ingest.Queue.Interleaving.{
  System, start, Step, tested, sent, shed, counts, received, consumes, Steps, here, next, Any,
  Steps-IsSound, sum_bytes, send-eq-some, receive-eq-some,
}

-- At most one push is under way.
abbrev pub IsAlone : System → Type 0
IsAlone s = length s.sending + length s.counting ≤ 1

-- The bytes that the queue and its goroutines hold, and the bounds that the queue was made with.
record IsWithin (c : IngestQueueConfig) (s : System) : Type 0 where
  cfg_kept : s.queue.cfg ≡ c
  within : sum_bytes s.queue.ch + sum_bytes s.consuming + sum_bytes s.sending ≤ c.max_bytes

-- The channel's capacity is never changed.
Step-capacity : {s t : System} → Step s t → t.queue.capacity ≡ s.queue.capacity
unfolding count consume
Step-capacity (tested b h) = refl
Step-capacity {s} (sent xs ys b q e h) =
    ap (λ (r : SinkQueue). r.capacity) (send-eq-some s.queue q b h).0
Step-capacity (shed xs ys b e h) = refl
Step-capacity (counts xs ys b e) = refl
Step-capacity {s} (received b q e h) =
    ap (λ (r : SinkQueue). r.capacity) (receive-eq-some s.queue q b h).1
Step-capacity (consumes b e) = refl

Steps-capacity :
    (c : IngestQueueConfig) (s : System)
    → Steps Any (start c) s
    → s.queue.capacity ≡ (new_sink_queue c).capacity
Steps-capacity c s here = refl
Steps-capacity c s (next {r} w h a) = Step-capacity h ∙ Steps-capacity c r w

-- In every interleaving, the channel holds no more batches than the configured capacity, or than one where
-- that is not positive.
pub length-Steps :
    (c : IngestQueueConfig) (s : System)
    → Steps Any (start c) s
    → (pos (length s.queue.ch) ≤ℤ c.capacity) ⊎ ((c.capacity ≤ℤ pos 0) × (length s.queue.ch ≤ 1))
unfolding new_sink_queue
length-Steps c s w =
    let capped = (Steps-IsSound Any c s w).capped in
    let kept = Steps-capacity c s w in ground (arith, capped, kept)

-- Two pushes that both test the byte bound before either is counted both enter an empty queue, if each
-- fits alone and the channel has room for two, even if they do not fit together.
pub has_room-overshoot :
    (c : IngestQueueConfig) (a b : QueuedBatch)
    → pos 2 ≤ℤ c.capacity
    → a.bytes ≤ c.max_bytes
    → b.bytes ≤ c.max_bytes
    → (s : System) × Steps Any (start c) s × (sum_bytes s.queue.ch ≡ a.bytes + b.bytes)
unfolding new_sink_queue has_room send sum_bytes
has_room-overshoot c a b two fits fits' =
    let r1 : has_room (new_sink_queue c) b ≡ true = ground arith in
    let r2 : has_room (new_sink_queue c) a ≡ true = ground arith in
    let q1 : SinkQueue = record (new_sink_queue c) { ch = a ∷ [] } in
    let q2 : SinkQueue = record (new_sink_queue c) { ch = a ∷ b ∷ [] } in
    let s1 : send (new_sink_queue c) a ≡ some q1 = ground arith in
    let s2 : send q1 b ≡ some q2 = ground arith in
    (
      record {
        queue = q2;
        sending = [];
        counting = b ∷ a ∷ [];
        consuming = [];
        entered = a ∷ b ∷ [];
      },
      next
          (next (next (next here (tested b r1) tt) (tested a r2) tt) (sent [] (b ∷ []) a q1 refl s1)
            tt)
          (sent [] [] b q2 refl s2) tt,
      omega arith,
    )
