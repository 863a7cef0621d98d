-- ===== src/Sampler/Assembly.antt =====
-- internal/sampler/assembly.go and wal.go: the buffers of open traces, one map for each shard, with the
-- write-ahead log. The keep decision (the baseline, `Match` and `Evaluate` on the converted trace) is a
-- collaborator, so that any policy is covered. The ring is the one of `NewManager`.
pub mod Runs
pub mod Isolation
pub mod Conservation
use tracing_bot.Prelude.{
  ℕ, zero, suc, ◌+◌, ◌%◌, String, Bool, true, false, ◌&&◌, ◌||◌, not, Option, none, some, List, [],
  ◌∷◌, ◌++◌, ltb, leb, ◌==◌, str_eq, if◌then◌else◌, any, length,
}

abbrev Time : Type 0
Time = ℕ

-- What the assembly reads of a `model.Span`.
pub record Span : Type 0 where
  pub trace_id : ℕ
  pub span_id : ℕ
  pub tenant : String
  pub size_bytes : ℕ

pub record TraceKey : Type 0 where
  pub tenant : String
  pub trace_id : ℕ

abbrev pub key_eq : TraceKey → TraceKey → Bool
key_eq a b = str_eq a.tenant b.tenant && a.trace_id == b.trace_id

-- `sampler.Trace`; the set of seen ids is in the order of arrival.
pub record OpenTrace : Type 0 where
  pub trace_id : ℕ
  pub tenant : String
  pub spans : List Span
  pub first_seen : Time
  pub last_seen : Time
  pub byte_size : ℕ
  pub shard_epoch : ℕ
  pub seen_span_ids : List ℕ

abbrev pub Buffer : Type 0
Buffer = List (TraceKey × OpenTrace)

unfoldable pub find : TraceKey → Buffer → Option OpenTrace
find k [] = none
find k ((j, t) ∷ rest) = if key_eq j k then some t else find k rest

unfoldable pub store : TraceKey → OpenTrace → Buffer → Buffer
store k t [] = (k, t) ∷ []
store k t ((j, u) ∷ rest) = if key_eq j k then (k, t) ∷ rest else (j, u) ∷ store k t rest

-- `MemWAL`'s map of one shard.
abbrev pub Journal : Type 0
Journal = List (TraceKey × List Span)

unfoldable pub wal_append : TraceKey → Span → Journal → Journal
wal_append k s [] = (k, s ∷ []) ∷ []
wal_append k s ((j, ss) ∷ rest) =
    if key_eq j k then (j, ss ++ s ∷ []) ∷ rest else (j, ss) ∷ wal_append k s rest

unfoldable pub wal_truncate : TraceKey → Journal → Journal
wal_truncate k [] = []
wal_truncate k ((j, ss) ∷ rest) =
    let rest' = wal_truncate k rest in if key_eq j k then rest' else (j, ss) ∷ rest'

pub data KeepReason : Type 0 where
  keep_error keep_slow keep_rare keep_interest keep_floor keep_probabilistic keep_dropped :
      KeepReason
  keep_shed keep_truncated : KeepReason

pub record Decision : Type 0 where
  pub tenant : String
  pub trace_id : ℕ
  pub keep : Bool
  pub reason : KeepReason

pub record AssemblyConfig : Type 0 where
  pub idle_timeout : ℕ
  pub hard_timeout : ℕ

-- `score i id` is the hash of the ring's i-th member with a trace id; `decide` is the keep policy.
pub record Deps : Type 0 where
  pub score : ℕ → ℕ → ℕ
  pub decide : OpenTrace → Decision

-- `last` is the highest index of a shard. `red` is every span that was handed to the RED accumulator and
-- `finalized` every trace that was finalized, oldest first; the second is not in the source.
pub record Manager : Type 0 where
  pub cfg : AssemblyConfig
  pub last : ℕ
  pub shards : ℕ → Buffer
  pub wal : ℕ → Journal
  pub epoch : ℕ
  pub duplicates : ℕ
  pub red : List Span
  pub decisions : List Decision
  pub traces : List OpenTrace
  pub finalized : List OpenTrace

-- `NewManager` with `n` shards, where a number below 1 is 1.
abbrev last_of : ℕ → ℕ
last_of zero = 0
last_of (suc n) = n

unfoldable pub new_manager : AssemblyConfig → ℕ → Manager
new_manager cfg n = record {
  cfg = cfg;
  last = last_of n;
  shards = λ i. [];
  wal = λ i. [];
  epoch = 0;
  duplicates = 0;
  red = [];
  decisions = [];
  traces = [];
  finalized = [];
}

abbrev pub set_at {ℓ} : {A : Type ℓ} → ℕ → A → (ℕ → A) → ℕ → A
set_at i a f j = if i == j then a else f j

-- `ShardFor` over the members 0 to `k`: the first with the highest score.
unfoldable pub shard_for : (ℕ → ℕ → ℕ) → ℕ → ℕ → ℕ
shard_for score id zero = 0
shard_for score id (suc k) =
    let best = shard_for score id k in
    if ltb (score best id) (score (suc k) id) then suc k else best

-- The trace that `Consume` opens.
abbrev pub open_trace : Manager → Time → TraceKey → OpenTrace
open_trace m now k = record {
  trace_id = k.trace_id;
  tenant = k.tenant;
  spans = [];
  first_seen = now;
  last_seen = 0;
  byte_size = 0;
  shard_epoch = m.epoch;
  seen_span_ids = [];
}

abbrev pub or_open : Manager → Time → TraceKey → Option OpenTrace → OpenTrace
or_open m now k none = open_trace m now k
or_open m now k (some t) = t

-- The trace with one more span.
abbrev pub with_span : Time → Span → OpenTrace → OpenTrace
with_span now s t = record t {
  spans = t.spans ++ s ∷ [];
  seen_span_ids = t.seen_span_ids ++ s.span_id ∷ [];
  last_seen = now;
  byte_size = t.byte_size + s.size_bytes;
}

abbrev pub is_seen : Span → OpenTrace → Bool
is_seen s t = any (λ i. i == s.span_id) t.seen_span_ids

-- The loop body of `Consume`, for a span that was stamped with the tenant.
unfoldable pub consume_stamped : Deps → Time → Manager → TraceKey → Span → Manager
unfolding find store wal_append shard_for
consume_stamped d now m k s =
    let i = shard_for d.score s.trace_id m.last in
    let at = i % suc m.last in
    let t = or_open m now k (find k (m.shards at)) in
    if is_seen s t
    then record m {
      shards = set_at at (store k t (m.shards at)) m.shards;
      duplicates = m.duplicates + 1;
    }
    else record m {
      shards = set_at at (store k (with_span now s t) (m.shards at)) m.shards;
      red = m.red ++ s ∷ [];
      wal = set_at i (wal_append k s (m.wal i)) m.wal;
    }

abbrev pub stamped : String → Span → Span
stamped tid s = record s { tenant = tid }

unfoldable pub consume : Deps → Time → String → List Span → Manager → Manager
unfolding consume_stamped
consume d now tid [] m = m
consume d now tid (s ∷ ss) m =
    consume d now tid ss
      (consume_stamped d now m (record { tenant = tid; trace_id = s.trace_id }) (stamped tid s))

-- `FlushAll`'s decision.
abbrev pub shed : OpenTrace → Decision
shed t = record { tenant = t.tenant; trace_id = t.trace_id; keep = false; reason = keep_shed }

-- `finalize`, with the decision that was made.
unfoldable pub finalize : ℕ → Decision → OpenTrace → Manager → Manager
unfolding wal_truncate
finalize i c t m = record m {
  wal =
      set_at i (wal_truncate (record { tenant = t.tenant; trace_id = t.trace_id }) (m.wal i)) m.wal;
  decisions = m.decisions ++ c ∷ [];
  traces = if c.keep then m.traces ++ t ∷ [] else m.traces;
  finalized = m.finalized ++ t ∷ [];
}

unfoldable pub finalize_all : ℕ → (OpenTrace → Decision) → List OpenTrace → Manager → Manager
unfolding finalize
finalize_all i f [] m = m
finalize_all i f (t ∷ ts) m = finalize_all i f ts (finalize i (f t) t m)

unfoldable pub is_due : AssemblyConfig → Time → OpenTrace → Bool
is_due cfg now t =
    leb (t.last_seen + cfg.idle_timeout) now || leb (t.first_seen + cfg.hard_timeout) now

unfoldable pub taken : (OpenTrace → Bool) → Buffer → List OpenTrace
taken f [] = []
taken f ((k, t) ∷ rest) = let out = taken f rest in if f t then t ∷ out else out

unfoldable pub left : (OpenTrace → Bool) → Buffer → Buffer
left f [] = []
left f ((k, t) ∷ rest) = let out = left f rest in if f t then out else (k, t) ∷ out

-- One round of the loop over the shards in `Tick` and `FlushAll`: the traces that `f` selects leave the
-- buffer, and are finalized.
unfoldable pub sweep_shard : ℕ → (OpenTrace → Bool) → (OpenTrace → Decision) → Manager → Manager
unfolding finalize_all taken left
sweep_shard i f c m =
    finalize_all i c (taken f (m.shards i))
      (record m { shards = set_at i (left f (m.shards i)) m.shards })

-- The loop over the shards 0 to `k`.
unfoldable pub sweep : ℕ → (OpenTrace → Bool) → (OpenTrace → Decision) → Manager → Manager
unfolding sweep_shard
sweep zero f c m = sweep_shard 0 f c m
sweep (suc k) f c m = sweep_shard (suc k) f c (sweep k f c m)

unfoldable pub tick : Deps → Time → Manager → Manager
unfolding sweep
tick d now m = sweep m.last (is_due m.cfg now) d.decide m

unfoldable pub flush_all : Manager → Manager
unfolding sweep
flush_all m = sweep m.last (λ t. true) shed m
