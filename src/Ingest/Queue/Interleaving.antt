-- ===== src/Ingest/Queue/Interleaving.antt =====
-- queue.go: the interleavings of the goroutines that push with the one that drains.
use mathlib.Core.List.{append_assoc}
use tracing_bot.Prelude.{
  ℕ, ◌+◌, ◌≤◌, ◌<◌, ◌≡◌, refl, sym, ap, ◌∙◌, true, none, some, List, [], ◌∷◌, ◌++◌, arith, length,
  length-append,
}
use tracing_bot.Ingest.Queue.{
  QueuedBatch, IngestQueueConfig, SinkQueue, new_sink_queue, has_room, send, count, consume,
  receive, taken,
}

-- A queue with the batches that goroutines hold: `sending` passed the test of the byte bound, `counting`
-- are on the channel and not in the counter yet, `consuming` was received. `entered` is every batch
-- that was sent on the channel, oldest first.
pub record System : Type 0 where
  pub queue : SinkQueue
  pub sending : List QueuedBatch
  pub counting : List QueuedBatch
  pub consuming : List QueuedBatch
  pub entered : List QueuedBatch

abbrev pub start : IngestQueueConfig → System
start c = record {
  queue = new_sink_queue c;
  sending = [];
  counting = [];
  consuming = [];
  entered = [];
}

-- One step of one goroutine.
pub data Step (s : System) : System → Type 0 where
  tested :
      (b : QueuedBatch) → has_room s.queue b ≡ true → Step s (record s { sending = b ∷ s.sending })
  sent :
      (xs ys : List QueuedBatch) (b : QueuedBatch) (q : SinkQueue)
      → s.sending ≡ xs ++ b ∷ ys
      → send s.queue b ≡ some q
      → Step s (record s {
        queue = q;
        sending = xs ++ ys;
        counting = b ∷ s.counting;
        entered = s.entered ++ b ∷ [];
      })
  shed :
      (xs ys : List QueuedBatch) (b : QueuedBatch)
      → s.sending ≡ xs ++ b ∷ ys
      → send s.queue b ≡ none
      → Step s (record s { sending = xs ++ ys })
  counts :
      (xs ys : List QueuedBatch) (b : QueuedBatch)
      → s.counting ≡ xs ++ b ∷ ys
      → Step s (record s { queue = count s.queue b; counting = xs ++ ys })
  received :
      (b : QueuedBatch) (q : SinkQueue)
      → s.consuming ≡ []
      → receive s.queue ≡ some (b, q)
      → Step s (record s { queue = q; consuming = b ∷ [] })
  consumes :
      (b : QueuedBatch)
      → s.consuming ≡ b ∷ []
      → Step s (record s { queue = consume s.queue b; consuming = [] })

-- Any steps from `s`, each to a system of which `P` holds.
pub data Steps (P : System → Type 0) (s : System) : System → Type 0 where
  here : Steps P s s
  next : {r t : System} → Steps P s r → Step r t → P t → Steps P s t

abbrev pub Any : System → Type 0
Any s = Unit

unfoldable pub sum_bytes : List QueuedBatch → ℕ
sum_bytes [] = 0
sum_bytes (b ∷ bs) = b.bytes + sum_bytes bs

pub sum_bytes-append :
    (xs ys : List QueuedBatch) → sum_bytes (xs ++ ys) ≡ sum_bytes xs + sum_bytes ys
unfolding sum_bytes
sum_bytes-append [] ys = omega arith
sum_bytes-append (x ∷ xs) ys = omega (arith, sum_bytes-append xs ys)

pub sum_bytes-middle :
    (xs ys : List QueuedBatch) (b : QueuedBatch)
    → sum_bytes (xs ++ b ∷ ys) ≡ b.bytes + sum_bytes (xs ++ ys)
unfolding sum_bytes
sum_bytes-middle xs ys b = rw (sum_bytes-append, sum_bytes-append) (omega arith)

-- The invariant of every interleaving.
pub record IsSound (s : System) : Type 0 where
  pub balance :
      s.queue.added + sum_bytes s.counting
      ≡ s.queue.removed + sum_bytes s.consuming + sum_bytes s.queue.ch
  pub order : s.queue.delivered ++ (s.consuming ++ s.queue.ch) ≡ s.entered
  pub capped : length s.queue.ch ≤ s.queue.capacity

pub start-IsSound : (c : IngestQueueConfig) → IsSound (start c)
unfolding new_sink_queue sum_bytes
start-IsSound c = record { balance = refl; order = refl; capped = omega arith }

pub send-eq-some :
    (q r : SinkQueue) (b : QueuedBatch)
    → send q b ≡ some r
    → (r ≡ record q { ch = q.ch ++ b ∷ [] }) × (length q.ch < q.capacity)
unfolding send
send-eq-some q r b h = ground arith

taken-eq-some :
    (q r : SinkQueue) (b : QueuedBatch) (l : List QueuedBatch)
    → taken q l ≡ some (b, r)
    → (l ≡ b ∷ r.ch) × (r ≡ record q { ch = r.ch })
taken-eq-some q r b [] h = cc
taken-eq-some q r b (x ∷ xs) h =
    let e : r ≡ record q { ch = xs } = cc in let f : x ≡ b = cc in rw (e, f) (refl, refl)

pub receive-eq-some :
    (q r : SinkQueue) (b : QueuedBatch)
    → receive q ≡ some (b, r)
    → (q.ch ≡ b ∷ r.ch) × (r ≡ record q { ch = r.ch })
unfolding receive
receive-eq-some q r b h = taken-eq-some q r b q.ch h

-- A batch that leaves a list of held batches.
pub held :
    (l xs ys : List QueuedBatch) (b : QueuedBatch)
    → l ≡ xs ++ b ∷ ys
    → sum_bytes l ≡ b.bytes + sum_bytes (xs ++ ys)
held l xs ys b e = ap sum_bytes e ∙ sum_bytes-middle xs ys b

sent-IsSound :
    (s : System) (xs ys : List QueuedBatch) (b : QueuedBatch)
    → IsSound s
    → length s.queue.ch < s.queue.capacity
    → IsSound (record s {
      queue = record s.queue { ch = s.queue.ch ++ b ∷ [] };
      sending = xs ++ ys;
      counting = b ∷ s.counting;
      entered = s.entered ++ b ∷ [];
    })
unfolding sum_bytes
sent-IsSound s xs ys b i room = record {
  balance = omega (arith, i.balance, sum_bytes-append s.queue.ch (b ∷ []));
  order =
      ap (λ l. s.queue.delivered ++ l) (sym (append_assoc s.consuming s.queue.ch (b ∷ [])))
      ∙ sym (append_assoc s.queue.delivered (s.consuming ++ s.queue.ch) (b ∷ []))
      ∙ ap (λ l. l ++ b ∷ []) i.order;
  capped = omega (arith, room, length-append s.queue.ch (b ∷ []));
}

pub Step-IsSound : {s t : System} → IsSound s → Step s t → IsSound t
unfolding sum_bytes count consume
Step-IsSound i (tested b h) = record { balance = i.balance; order = i.order; capped = i.capped }
Step-IsSound {s} i (sent xs ys b q e h) =
    let (eq, room) = send-eq-some s.queue q b h in rw eq (sent-IsSound s xs ys b i room)
Step-IsSound i (shed xs ys b e h) = record {
  balance = i.balance;
  order = i.order;
  capped = i.capped;
}
Step-IsSound {s} i (counts xs ys b e) = record {
  balance = omega (arith, i.balance, held s.counting xs ys b e);
  order = i.order;
  capped = i.capped;
}
Step-IsSound {s} i (received b q e h) =
    let (front, eq) = receive-eq-some s.queue q b h in
    rw eq (record {
      balance = omega (arith, i.balance, ap sum_bytes e, ap sum_bytes front);
      order =
          ap (λ l. s.queue.delivered ++ l) (sym front)
          ∙ ap (λ l. s.queue.delivered ++ (l ++ s.queue.ch)) (sym e)
          ∙ i.order;
      capped = omega (arith, i.capped, ap length front);
    })
Step-IsSound {s} i (consumes b e) = record {
  balance = omega (arith, i.balance, ap sum_bytes e);
  order =
      append_assoc s.queue.delivered (b ∷ []) s.queue.ch
      ∙ ap (λ l. s.queue.delivered ++ (l ++ s.queue.ch)) (sym e)
      ∙ i.order;
  capped = i.capped;
}

pub Steps-IsSound :
    (P : System → Type 0) (c : IngestQueueConfig) (s : System) → Steps P (start c) s → IsSound s
Steps-IsSound P c s here = start-IsSound c
Steps-IsSound P c s (next {r} w h p) = Step-IsSound (Steps-IsSound P c r w) h
