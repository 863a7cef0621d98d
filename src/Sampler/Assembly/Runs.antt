-- ===== src/Sampler/Assembly/Runs.antt =====
-- assembly.go: any calls of the manager, and what a sweep changes.
use mathlib.Core.List.{append_assoc, append-nil}
use tracing_bot.Prelude.{ℕ, ◌+◌, String, ◌≡◌, refl, sym, ◌∙◌, Bool, List, [], ◌∷◌, ◌++◌, length}
use tracing_bot.Sampler.Assembly.{
  Span, OpenTrace, Decision, Deps, Manager, consume, finalize, finalize_all, taken, left,
  sweep_shard, tick, flush_all, set_at,
}

pub data Call : Type 0 where
  consuming : Deps → ℕ → String → List Span → Call
  ticking : Deps → ℕ → Call
  flushing : Call

unfoldable pub apply : Manager → Call → Manager
apply m (consuming d now tid ss) = consume d now tid ss m
apply m (ticking d now) = tick d now m
apply m flushing = flush_all m

-- The calls, the first one first.
unfoldable pub run : List Call → Manager → Manager
unfolding apply
run [] m = m
run (c ∷ cs) m = run cs (apply m c)

-- The spans that the calls deliver.
abbrev delivered : Call → ℕ
delivered (consuming d now tid ss) = length ss
delivered _ = 0

unfoldable pub span_total : List Call → ℕ
span_total [] = 0
span_total (c ∷ cs) = delivered c + span_total cs

-- What `finalize_all` does to the rest of the manager.
pub record Finalizes (ts : List OpenTrace) (m r : Manager) : Type 0 where
  pub shards : r.shards ≡ m.shards
  pub last : r.last ≡ m.last
  pub duplicates : r.duplicates ≡ m.duplicates
  pub red : r.red ≡ m.red
  pub finalized : r.finalized ≡ m.finalized ++ ts

pub finalize_all-Finalizes :
    (i : ℕ) (f : OpenTrace → Decision) (ts : List OpenTrace) (m : Manager)
    → Finalizes ts m (finalize_all i f ts m)
unfolding finalize_all finalize
finalize_all-Finalizes i f [] m = record {
  shards = refl;
  last = refl;
  duplicates = refl;
  red = refl;
  finalized = sym (append-nil m.finalized);
}
finalize_all-Finalizes i f (t ∷ ts) m =
    let h = finalize_all-Finalizes i f ts (finalize i (f t) t m) in
    record {
      shards = h.shards;
      last = h.last;
      duplicates = h.duplicates;
      red = h.red;
      finalized = h.finalized ∙ append_assoc m.finalized (t ∷ []) ts;
    }

-- What `sweep_shard` does to the rest of the manager.
pub sweep_shard-Finalizes :
    (i : ℕ) (f : OpenTrace → Bool) (c : OpenTrace → Decision) (m : Manager)
    → Finalizes
        (taken f (m.shards i))
        (record m { shards = set_at i (left f (m.shards i)) m.shards })
        (sweep_shard i f c m)
unfolding sweep_shard
sweep_shard-Finalizes i f c m = finalize_all-Finalizes i c (taken f (m.shards i)) _
