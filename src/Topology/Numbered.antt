-- ===== src/Topology/Numbered.antt =====
-- Tables with the same keys, one of which numbers them in ascending order.
use tracing_bot.Prelude.{
  ℕ, ◌+◌, ◌<◌, ◌≤◌, true, Option, none, some, [], ◌∷◌, ◌≡◌, refl, arith, inl, inr, eq_iff, subst,
  sym, ap, ◌∙◌, if_elim, Bool-cases,
}
use mathlib.Core.List.{Memᴰ}
use mathlib.Core.List.Memᴰ
use tracing_bot.Prelude.Table.{Table, find, store, erase}
use tracing_bot.Topology.Types.{Edge, EdgeKey, edge_key_eq}
use tracing_bot.Topology.Bound.{edge_key_eq_refl}

-- The two tables have the same keys in the same order.
pub data Aligned : Table EdgeKey Edge → Table EdgeKey ℕ → Type 0 where
  nothing : Aligned [] []
  entry :
      {k : EdgeKey} {e : Edge} {i : ℕ} {m : Table EdgeKey Edge} {n : Table EdgeKey ℕ}
      → Aligned m n
      → Aligned ((k, e) ∷ m) ((k, i) ∷ n)

-- The numbers grow along the table, from more than `lo` to `hi` at most.
abbrev pub IsAscending : ℕ → Table EdgeKey ℕ → ℕ → Type 0
IsAscending lo [] hi = lo ≤ hi
IsAscending lo ((k, i) ∷ n) hi = (lo < i) × IsAscending i n hi

pub edge_key_eq_sound : (j k : EdgeKey) → edge_key_eq j k ≡ true → j ≡ k
edge_key_eq_sound j k h = ground (
  arith,
  eq_iff j.tenant k.tenant,
  eq_iff j.caller k.caller,
  eq_iff j.callee k.callee,
  eq_iff j.protocol k.protocol,
)

pub find-Aligned :
    (k : EdgeKey) {m : Table EdgeKey Edge} {n : Table EdgeKey ℕ}
    → Aligned m n
    → find edge_key_eq k m ≡ none
    → find edge_key_eq k n ≡ none
unfolding find
find-Aligned k nothing e = refl
find-Aligned k (entry {k = j} {n = n} a) e =
    let rest = find-Aligned k a in
    if_elim (λ (o : Option ℕ). o ≡ none) (edge_key_eq j k) (λ h. absurd (ground arith))
      (λ h. rest (ground arith))

pub Aligned-store :
    (k : EdgeKey) (e : Edge) (i : ℕ) {m : Table EdgeKey Edge} {n : Table EdgeKey ℕ}
    → Aligned m n
    → Aligned (store edge_key_eq k e m) (store edge_key_eq k i n)
unfolding store
Aligned-store k e i nothing = entry nothing
Aligned-store k e i (entry {k = j} a) = elim (Bool-cases (edge_key_eq j k)) [
  | inl h ↦ rw h (entry a)
  | inr h ↦ rw h (entry (Aligned-store k e i a))
]

pub Aligned-store_found :
    (k : EdgeKey) (e old : Edge) {m : Table EdgeKey Edge} {n : Table EdgeKey ℕ}
    → find edge_key_eq k m ≡ some old
    → Aligned m n
    → Aligned (store edge_key_eq k e m) n
unfolding store find
Aligned-store_found k e old f nothing = absurd (cc)
Aligned-store_found k e old f (entry {k = j} {i = i} {m = m} {n = n} a) =
    elim (Bool-cases (edge_key_eq j k)) [
      | inl h ↦
          rw h (
            subst (λ x. Aligned ((k, e) ∷ m) ((x, i) ∷ n)) (sym (edge_key_eq_sound j k h))
              (entry a))
      | inr h ↦ rw h (entry (Aligned-store_found k e old (ground arith) a))
    ]

pub Aligned-erase :
    (k : EdgeKey) {m : Table EdgeKey Edge} {n : Table EdgeKey ℕ}
    → Aligned m n
    → Aligned (erase edge_key_eq k m) (erase edge_key_eq k n)
unfolding erase
Aligned-erase k nothing = nothing
Aligned-erase k (entry {k = j} a) = elim (Bool-cases (edge_key_eq j k)) [
  | inl h ↦ rw h (Aligned-erase k a)
  | inr h ↦ rw h (entry (Aligned-erase k a))
]

pub IsAscending-le : (lo hi : ℕ) (n : Table EdgeKey ℕ) → IsAscending lo n hi → lo ≤ hi
IsAscending-le lo hi [] h = h
IsAscending-le lo hi ((k, i) ∷ n) h = omega (arith, h.0, IsAscending-le i hi n h.1)

pub IsAscending-lower :
    (lo lo' hi : ℕ) (n : Table EdgeKey ℕ) → lo' ≤ lo → IsAscending lo n hi → IsAscending lo' n hi
IsAscending-lower lo lo' hi [] l h = omega arith
IsAscending-lower lo lo' hi ((k, i) ∷ n) l h = (omega (arith, h.0), h.1)

pub IsAscending-erase :
    (k : EdgeKey) (lo hi : ℕ) (n : Table EdgeKey ℕ)
    → IsAscending lo n hi
    → IsAscending lo (erase edge_key_eq k n) hi
unfolding erase
IsAscending-erase k lo hi [] h = h
IsAscending-erase k lo hi ((j, i) ∷ n) h =
    if_elim (λ (m : Table EdgeKey ℕ). IsAscending lo m hi) (edge_key_eq j k)
      (λ _.
        IsAscending-lower i lo hi (erase edge_key_eq k n) (omega (arith, h.0))
          (IsAscending-erase k i hi n h.1))
      (λ _. (h.0, IsAscending-erase k i hi n h.1))

pub IsAscending-store :
    (k : EdgeKey) (lo hi : ℕ) (n : Table EdgeKey ℕ)
    → find edge_key_eq k n ≡ none
    → IsAscending lo n hi
    → IsAscending lo (store edge_key_eq k (hi + 1) n) (hi + 1)
unfolding store find
IsAscending-store k lo hi [] e h = (omega arith, omega arith)
IsAscending-store k lo hi ((j, i) ∷ n) e h = elim (Bool-cases (edge_key_eq j k)) [
  | inl f ↦ absurd (ground arith)
  | inr f ↦ rw f (h.0, IsAscending-store k i hi n (ground arith) h.1)
]

pub find-IsAscending :
    (k : EdgeKey) (lo hi x : ℕ) (n : Table EdgeKey ℕ)
    → find edge_key_eq k n ≡ some x
    → IsAscending lo n hi
    → lo < x
unfolding find
find-IsAscending k lo hi x [] e h = absurd (cc)
find-IsAscending k lo hi x ((j, i) ∷ n) e h =
    let rest = find-IsAscending k i hi x n in ground (arith, rest, h.0, h.1)

-- Two keys with one number are the same.
pub find-IsAscending_inj :
    (j k : EdgeKey) (lo hi x : ℕ) (n : Table EdgeKey ℕ)
    → find edge_key_eq j n ≡ some x
    → find edge_key_eq k n ≡ some x
    → IsAscending lo n hi
    → j ≡ k
unfolding find
find-IsAscending_inj j k lo hi x [] e f h = absurd (cc)
find-IsAscending_inj j k lo hi x ((l, i) ∷ n) e f h =
    let below = λ (y : EdgeKey). find-IsAscending y i hi x n in
    let rest = find-IsAscending_inj j k i hi x n in
    elim (Bool-cases (edge_key_eq l j)) [
      | inl a ↦ elim (Bool-cases (edge_key_eq l k)) [
        | inl b ↦ sym (edge_key_eq_sound l j a) ∙ edge_key_eq_sound l k b
        | inr b ↦ absurd (ground (arith, below k, h.1))
      ]
      | inr a ↦ elim (Bool-cases (edge_key_eq l k)) [
        | inl b ↦ absurd (ground (arith, below j, h.1))
        | inr b ↦ rest (ground arith) (ground arith) h.1
      ]
    ]

pub find-Memᴰ :
    (k : EdgeKey) (e : Edge) {m : Table EdgeKey Edge} {n : Table EdgeKey ℕ}
    → Memᴰ (k, e) m
    → Aligned m n
    → (i : ℕ) × (find edge_key_eq k n ≡ some i)
unfolding find
find-Memᴰ k e p nothing = absurd (Memᴰ.not-nil p)
find-Memᴰ k e p (entry {k = j} {i = i} {n = n} a) = elim (Bool-cases (edge_key_eq j k)) [
  | inl h ↦ (i, ground arith)
  | inr h ↦ elim p [
    | Memᴰ.head q ↦ absurd (ground (arith, ap (λ (x : EdgeKey × Edge). x.0) q, edge_key_eq_refl k))
    | Memᴰ.tail p' ↦ let (x, f) = find-Memᴰ k e p' a in (x, ground arith)
  ]
]
