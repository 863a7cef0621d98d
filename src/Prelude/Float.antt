-- ===== src/Prelude/Float.antt =====
-- Go's float64 as its bit pattern, with the comparisons of IEEE 754: no number compares with a NaN, and
-- the two zeros are equal.
use Prim.Native.Nat.{ℕ, ◌%◌}
use mathlib.Core.Bool.{Bool, true, false, ◌&&◌, not}
use mathlib.Core.Path.{◌≡◌}
use native.Mathlib.Omega.{arith}
use tracing_bot.Prelude.Tests.{ltb, if◌then◌else◌}
use tracing_bot.Prelude.Int.{ℤ, pos, minus, ltb_ℤ, leb_ℤ}

abbrev pub Float : Type 0
Float = ℕ

is_nan : Float → Bool
is_nan a = ltb 0x7ff0_0000_0000_0000 (a % 0x8000_0000_0000_0000)

-- The place of a number in their order.
rank : Float → ℤ
rank a = if ltb a 0x8000_0000_0000_0000 then pos a else minus (a % 0x8000_0000_0000_0000)

-- `a < b` and `a <= b`.
unfoldable pub lt_float : Float → Float → Bool
unfolding is_nan rank
lt_float a b = not (is_nan a) && not (is_nan b) && ltb_ℤ (rank a) (rank b)

unfoldable pub le_float : Float → Float → Bool
unfolding is_nan rank
le_float a b = not (is_nan a) && not (is_nan b) && leb_ℤ (rank a) (rank b)

-- What is not above `a` is not `b` or more, for any `b` above `a`.
pub le_float-eq_false :
    (a b c : Float) → lt_float a b ≡ true → lt_float a c ≡ false → le_float b c ≡ false
unfolding lt_float le_float
le_float-eq_false a b c h k = ground arith
