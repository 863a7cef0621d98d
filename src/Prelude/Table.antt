-- ===== src/Prelude/Table.antt =====
-- A Go map with keys of any comparable type, as an association list under a test of equality.
use Prim.Native.Nat.{◌+◌, ◌≤◌}
use mathlib.Core.Bool.{Bool, true, false}
use mathlib.Core.Path.{◌≡◌, refl, ap}
use mathlib.Core.List.{List, [], ◌∷◌, Memᴰ}
use mathlib.Core.List.Memᴰ
use mathlib.Core.Option.{Option, none, some}
use native.Mathlib.Omega.{arith}
use tracing_bot.Prelude.Tests.{if◌then◌else◌}
use tracing_bot.Prelude.Lists.{length}

abbrev pub Table {ℓ κ} : Type ℓ → Type κ → Type (ℓ ⊔ κ)
Table K V = List (K × V)

module _ {ℓ κ} {K : Type ℓ} {V : Type κ} (eq : K → K → Bool) where
  unfoldable pub find : K → Table K V → Option V
  find k [] = none
  find k ((j, v) ∷ m) = if eq j k then some v else find k m

  unfoldable pub store : K → V → Table K V → Table K V
  store k v [] = (k, v) ∷ []
  store k v ((j, w) ∷ m) = if eq j k then (k, v) ∷ m else (j, w) ∷ store k v m

  unfoldable pub erase : K → Table K V → Table K V
  erase k [] = []
  erase k ((j, v) ∷ m) = let rest = erase k m in if eq j k then rest else (j, v) ∷ rest

  -- A write adds an entry at most, and none where the key is there.
  pub length-store_le : (k : K) (v : V) (m : Table K V) → length (store k v m) ≤ length m + 1
  unfolding store
  length-store_le k v [] = omega arith
  length-store_le k v ((j, w) ∷ m) = ground (arith, length-store_le k v m)

  pub length-store_found :
      (k : K) (v w : V) (m : Table K V) → find k m ≡ some w → length (store k v m) ≡ length m
  unfolding store find
  length-store_found k v w [] h = absurd (cc)
  length-store_found k v w ((j, u) ∷ m) h = ground (arith, length-store_found k v w m)

  pub length-erase_le : (k : K) (m : Table K V) → length (erase k m) ≤ length m
  unfolding erase
  length-erase_le k [] = omega arith
  length-erase_le k ((j, u) ∷ m) = ground (arith, length-erase_le k m)

  pub length-erase_Mem :
      (k : K) (v : V) (m : Table K V)
      → eq k k ≡ true
      → Memᴰ (k, v) m
      → length (erase k m) + 1 ≤ length m
  unfolding erase
  length-erase_Mem k v [] r p = absurd (Memᴰ.not-nil p)
  length-erase_Mem k v ((j, u) ∷ m) r (Memᴰ.head e) =
      let same : k ≡ j = ap (λ (x : K × V). x.0) e in ground (arith, length-erase_le k m)
  length-erase_Mem k v ((j, u) ∷ m) r (Memᴰ.tail p) = ground (arith, length-erase_Mem k v m r p)

  pub length-store-none :
      (k : K) (v : V) (m : Table K V) → find k m ≡ none → length (store k v m) ≡ length m + 1
  unfolding store find
  length-store-none k v [] h = omega arith
  length-store-none k v ((j, u) ∷ m) h = ground (arith, length-store-none k v m)

  -- A deletion takes its key out, and leaves every key that no equal key is a match of.
  pub find-erase : (k : K) (m : Table K V) → find k (erase k m) ≡ none
  unfolding find erase
  find-erase k [] = refl
  find-erase k ((i, v) ∷ m) = ground (arith, find-erase k m)

  pub find-erase_other :
      (k j : K) (m : Table K V)
      → ((i : K) → eq i k ≡ true → eq i j ≡ false)
      → find j (erase k m) ≡ find j m
  unfolding find erase
  find-erase_other k j [] apart = refl
  find-erase_other k j ((i, v) ∷ m) apart = ground (arith, apart i, find-erase_other k j m apart)
