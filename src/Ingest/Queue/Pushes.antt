-- ===== src/Ingest/Queue/Pushes.antt =====
-- queue.go: `push` as a run of the steps of its goroutine.
use tracing_bot.Prelude.{
  ◌≡◌, ◌≢◌, refl, ◌⊎◌, inl, inr, Bool, true, false, [], ◌∷◌, ◌++◌, arith, Bool-cases, Option-cases,
  if◌then◌else◌,
}
use tracing_bot.Ingest.Queue.{
  QueuedBatch, SinkQueue, has_room, send, try_enqueue, PushOutcome, accepted, queue_full,
  queue_full_after_wait, waits, push, Wake, timer, done, push_woken,
}
use tracing_bot.Ingest.Queue.Interleaving.{System, tested, sent, counts, Steps, here, next, Any}

-- The system when the batch has entered the queue and was counted.
abbrev pub enqueued : System → QueuedBatch → SinkQueue → System
enqueued s b q = record s { queue = q; entered = s.entered ++ b ∷ [] }

try_enqueue-Steps :
    (s : System) (b : QueuedBatch)
    → let (q, ok) = try_enqueue s.queue b in
      ((ok ≡ true) × Steps Any s (enqueued s b q)) ⊎ ((ok ≡ false) × (q ≡ s.queue))
unfolding try_enqueue
try_enqueue-Steps s b = elim (Bool-cases (has_room s.queue b)) [
  | inr full ↦ inr (rw (full, try_enqueue) (refl, refl))
  | inl room ↦ elim (Option-cases (send s.queue b)) [
    | inl crowded ↦ inr (rw (room, try_enqueue, crowded) (refl, refl))
    | inr (q, e) ↦ inl (
        rw (room, try_enqueue, e)
          (
            refl,
            next (next (next here (tested b room) tt) (sent [] s.sending b q refl e) tt)
                (counts [] s.counting b refl) tt,
          ))
  ]
]

-- What a push does by its outcome.
abbrev pub Enters : System → QueuedBatch → SinkQueue × PushOutcome → Type 0
Enters s b r =
    ((r.1 ≡ accepted) × Steps Any s (enqueued s b r.0)) ⊎ ((r.1 ≢ accepted) × (r.0 ≡ s.queue))

Enters-outcome :
    (s : System) (b : QueuedBatch) (q : SinkQueue) (ok : Bool) (o : PushOutcome)
    → o ≢ accepted
    → ((ok ≡ true) × Steps Any s (enqueued s b q)) ⊎ ((ok ≡ false) × (q ≡ s.queue))
    → Enters s b (q, if ok then accepted else o)
Enters-outcome s b q true o ne (inl h) = inl (refl, h.1)
Enters-outcome s b q true o ne (inr h) = cc (h.0)
Enters-outcome s b q false o ne (inl h) = cc (h.0)
Enters-outcome s b q false o ne (inr h) = inr (ne, h.1)

refusal : (w : Bool) → (if w then waits else queue_full) ≢ accepted
refusal w e = ground arith

Enters-woken : (s : System) (b : QueuedBatch) (w : Wake) → Enters s b (push_woken s.queue b w)
unfolding push_woken
Enters-woken s b done = inr ((λ e. cc), refl)
Enters-woken s b timer =
    Enters-outcome s b _ _ queue_full_after_wait (λ e. cc) (try_enqueue-Steps s b)

-- A push, at its first try or when it is woken, is accepted after the steps test, send and count of its
-- batch, and otherwise leaves the queue as it was.
pub push-Enters :
    (s : System) (b : QueuedBatch) (w : Wake)
    → Enters s b (push s.queue b) × Enters s b (push_woken s.queue b w)
unfolding push
push-Enters s b w =
    (Enters-outcome s b _ _ _ (refusal _) (try_enqueue-Steps s b), Enters-woken s b w)
