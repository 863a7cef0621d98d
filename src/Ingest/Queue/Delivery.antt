-- ===== src/Ingest/Queue/Delivery.antt =====
-- queue.go: that every batch on the channel reaches the sink, once and in order.
use mathlib.Core.List.{append_assoc, append-nil}
use tracing_bot.Prelude.{◌+◌, ◌≡◌, refl, sym, ap, ◌∙◌, List, [], ◌∷◌, ◌++◌, arith}
use tracing_bot.Ingest.Queue.{
  QueuedBatch, IngestQueueConfig, SinkQueue, drain_all, drain_remaining, consume,
}
use tracing_bot.Ingest.Queue.Interleaving.{System, start, Steps, Steps-IsSound, sum_bytes}

-- What `drain_all` does to a queue whose channel holds the list.
abbrev pub IsDrained : SinkQueue → List QueuedBatch → SinkQueue → Type 0
IsDrained q l r =
    (r.ch ≡ [])
    × (r.delivered ≡ q.delivered ++ l)
    × (r.removed ≡ q.removed + sum_bytes l)
    × (r.added ≡ q.added)

drain_all-IsDrained :
    (l : List QueuedBatch) (q : SinkQueue) → q.ch ≡ l → IsDrained q l (drain_all l q)
unfolding consume sum_bytes
drain_all-IsDrained [] q e = (e, sym (append-nil q.delivered), omega arith, refl)
drain_all-IsDrained (b ∷ l) q e =
    let (empty, order, bytes, added) =
      drain_all-IsDrained l (consume (record q { ch = l }) b) refl in
    (empty, order ∙ append_assoc q.delivered (b ∷ []) l, omega (arith, bytes), added)

-- After any interleaving, once the draining goroutine holds no batch and no goroutine has a send left to
-- count, `drainRemaining` leaves the channel empty and the byte counter at 0, and the sink has been
-- given exactly the batches that were sent on the channel, each once and in their order.
pub drain_remaining-Steps :
    (c : IngestQueueConfig) (P : System → Type 0) (s : System)
    → Steps P (start c) s
    → s.consuming ≡ []
    → s.counting ≡ []
    → let r = drain_remaining s.queue in
      (r.ch ≡ []) × (r.delivered ≡ s.entered) × (r.added ≡ r.removed)
unfolding drain_remaining sum_bytes
drain_remaining-Steps c P s w idle settled =
    let i = Steps-IsSound P c s w in
    let (empty, order, bytes, added) = drain_all-IsDrained s.queue.ch s.queue refl in
    (
      empty,
      order ∙ ap (λ l. s.queue.delivered ++ (l ++ s.queue.ch)) (sym idle) ∙ i.order,
      omega (arith, i.balance, bytes, added, ap sum_bytes idle, ap sum_bytes settled),
    )
