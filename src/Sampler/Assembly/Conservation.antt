-- ===== src/Sampler/Assembly/Conservation.antt =====
-- assembly.go: that every span which is consumed is accounted for.
use tracing_bot.Prelude.{ℕ, zero, suc, ◌+◌, ◌≡◌, Option, none, some, List, [], ◌∷◌, length}
use tracing_bot.Sampler.Assembly.{OpenTrace, Buffer, Manager}

-- The spans of some traces, of a buffer, and of the shards 0 to `k`.
unfoldable pub span_count : List OpenTrace → ℕ
span_count [] = 0
span_count (t ∷ ts) = length t.spans + span_count ts

unfoldable pub open_count : Buffer → ℕ
open_count [] = 0
open_count ((k, t) ∷ rest) = length t.spans + open_count rest

unfoldable pub held_count : ℕ → (ℕ → Buffer) → ℕ
held_count zero f = open_count (f 0)
held_count (suc k) f = held_count k f + open_count (f (suc k))

abbrev size_of : Option OpenTrace → ℕ
size_of none = 0
size_of (some t) = length t.spans

-- The spans that a manager knows of: the ones of open and of finalized traces, and the duplicates.
abbrev pub accounted : Manager → ℕ
accounted m = held_count m.last m.shards + span_count m.finalized + m.duplicates

-- What one span does to the counts.
pub record Counts (n : ℕ) (m r : Manager) : Type 0 where
  pub last : r.last ≡ m.last
  pub all : accounted r ≡ accounted m + n
  pub red : length r.red + r.duplicates ≡ length m.red + m.duplicates + n
