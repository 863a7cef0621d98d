-- ===== src/Prelude/Assoc.antt =====
-- A Go map with string keys, as an association list: `put` overwrites the entry of its key, or adds
-- one at the end.
use Prim.Native.Nat.{ℕ, suc, ◌+◌, ◌≤◌}
use Prim.Native.String.{String}
use mathlib.Core.Bool.{Bool, true}
use mathlib.Core.Path.{◌≡◌, refl}
use mathlib.Core.List.{List, [], ◌∷◌}
use mathlib.Core.Option
use mathlib.Core.Option.{Option, none, some}
use native.Mathlib.Omega.{arith}
use text.Mathlib.Text.{◌==◌ as str_eq}
use text.Mathlib.TextEquality.{eq_iff}
use text.Mathlib.TextPositions.{eq_refl}
use tracing_bot.Prelude.Tests.{if◌then◌else◌}

abbrev pub Assoc {ℓ} : Type ℓ → Type ℓ
Assoc V = List (String × V)

module _ {ℓ} {V : Type ℓ} where
  unfoldable pub lookup : String → Assoc V → Option V
  lookup k [] = none
  lookup k ((j, v) ∷ m) = if str_eq j k then some v else lookup k m

  unfoldable pub put : String → V → Assoc V → Assoc V
  put k v [] = (k, v) ∷ []
  put k v ((j, w) ∷ m) = if str_eq j k then (k, v) ∷ m else (j, w) ∷ put k v m

  unfoldable pub map_values : (V → V) → Assoc V → Assoc V
  map_values f [] = []
  map_values f ((k, v) ∷ m) = (k, f v) ∷ map_values f m

  pub lookup-put :
      (k j : String) (v : V) (m : Assoc V)
      → lookup j (put k v m) ≡ (if str_eq k j then some v else lookup j m)
  unfolding lookup put
  lookup-put k j v [] = refl
  lookup-put k j v ((i, w) ∷ m) =
      ground (arith, eq_iff k j, eq_iff i k, eq_iff i j, lookup-put k j v m)

  pub lookup-put_self : (k : String) (v : V) (m : Assoc V) → lookup k (put k v m) ≡ some v
  lookup-put_self k v m = simp (lookup-put, eq_refl)

  pub lookup-map_values :
      (f : V → V) (k : String) (m : Assoc V) → lookup k (map_values f m) ≡ Option.map f (lookup k m)
  unfolding lookup map_values
  lookup-map_values f k [] = refl
  lookup-map_values f k ((j, w) ∷ m) = ground (arith, lookup-map_values f k m)

  -- The second write to a key hides the first.
  pub put-put : (k : String) (v w : V) (m : Assoc V) → put k w (put k v m) ≡ put k w m
  unfolding put
  put-put k v w [] = simp eq_refl
  put-put k v w ((i, x) ∷ m) = ground (arith, eq_refl k, put-put k v w m)

  -- How many entries have a value that passes the test.
  unfoldable pub count_if : (V → Bool) → Assoc V → ℕ
  count_if p [] = 0
  count_if p ((k, v) ∷ m) = let n = count_if p m in if p v then suc n else n

  abbrev pub passes : (V → Bool) → Option V → ℕ
  passes p none = 0
  passes p (some v) = if p v then 1 else 0

  pub passes_le : (p : V → Bool) (o : Option V) → passes p o ≤ 1
  passes_le p none = omega arith
  passes_le p (some v) = ground arith

  -- A write moves the count by what the old and the new value count.
  pub count_if-put :
      (p : V → Bool) (k : String) (v : V) (m : Assoc V)
      → count_if p (put k v m) + passes p (lookup k m) ≡ count_if p m + passes p (some v)
  unfolding count_if put lookup
  count_if-put p k v [] = ground arith
  count_if-put p k v ((j, w) ∷ m) = ground (arith, count_if-put p k v m)

  pub count_if-map_le :
      (p : V → Bool) (f : V → V) (m : Assoc V)
      → ((v : V) → p (f v) ≡ true → p v ≡ true)
      → count_if p (map_values f m) ≤ count_if p m
  unfolding count_if map_values
  count_if-map_le p f [] h = omega arith
  count_if-map_le p f ((j, w) ∷ m) h = ground (arith, h w, count_if-map_le p f m h)
