-- ===== src/Prelude/Decimal.antt =====
-- The decimal digits of a number, as Go's `%d` writes them.
use Prim.Native.Nat.{ℕ, zero, suc, ◌/◌, ◌%◌}
use Prim.Native.String.{String, ◌++◌ as concat}
use tracing_bot.Prelude.Tests.{ltb, ◌==◌, if◌then◌else◌}

-- `%d`, for the at most 20 digits of a uint64.
digit : ℕ → String
digit n =
    if n == 0
    then "0"
    else if n == 1
    then "1"
    else if n == 2
    then "2"
    else if n == 3
    then "3"
    else if n == 4
    then "4"
    else if n == 5
    then "5"
    else if n == 6
    then "6"
    else if n == 7
    then "7"
    else if n == 8
    then "8"
    else "9"

unfoldable pub decimal : ℕ → ℕ → String
unfolding digit
decimal zero n = ""
decimal (suc k) n =
    let front = decimal k (n / 10) in if ltb n 10 then digit n else concat front (digit (n % 10))
