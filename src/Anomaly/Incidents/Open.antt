-- ===== src/Anomaly/Incidents/Open.antt =====
-- The open incidents of a map, and how a write changes their number.
use tracing_bot.Prelude.{
  ◌+◌, ◌≤◌, ◌<◌, String, true, false, ◌&&◌, Option, none, some, [], ◌∷◌, str_eq, eq_iff, ◌≡◌, refl,
  sym, ap, ◌∙◌, subst, arith, if_elim, Bool-cases, inl, inr, ◌⊎◌, some_inj,
}
use text.Mathlib.TextPositions.{eq_refl}
use tracing_bot.Prelude.Assoc.{Assoc, lookup, put, lookup-put, count_if, passes_le, count_if-put}
use tracing_bot.Prelude.Float.{lt_float}
use tracing_bot.Anomaly.Types.{expired, Incident}
use tracing_bot.Anomaly.Grouper.{is_open}
use tracing_bot.Anomaly.Incidents.{lower_of, lowest_open, count_open}

-- No key stands twice.
abbrev pub IsDistinct : Assoc Incident → Type 0
IsDistinct [] = Unit
IsDistinct ((k, v) ∷ m) = (lookup k m ≡ none) × IsDistinct m

pub lookup-put_other :
    (k j : String) (v : Incident) (m : Assoc Incident)
    → str_eq k j ≡ false
    → lookup j m ≡ none
    → lookup j (put k v m) ≡ none
lookup-put_other k j v m h e = ground (arith, lookup-put k j v m)

pub put-IsDistinct :
    (k : String) (v : Incident) (m : Assoc Incident) → IsDistinct m → IsDistinct (put k v m)
unfolding put lookup
put-IsDistinct k v [] h = (refl, tt)
put-IsDistinct k v ((j, w) ∷ m) h =
    if_elim IsDistinct (str_eq j k)
      (λ q. (subst (λ x. lookup x m ≡ none) (ground (arith, eq_iff j k)) h.0, h.1))
      (λ q. (
        lookup-put_other k j v m (ground (arith, eq_iff j k, eq_iff k j)) h.0,
        put-IsDistinct k v m h.1,
      ))

pub lower_of-cases :
    (low : Option (String × Incident)) (k : String) (inc : Incident)
    → ((lower_of low (k, inc) ≡ some (k, inc)) × (is_open inc.status ≡ true))
      ⊎ (lower_of low (k, inc) ≡ low)
lower_of-cases none k inc = elim (Bool-cases (is_open inc.status)) [
  | inl h ↦ rw h (inl (refl, refl))
  | inr h ↦ rw h (inr refl)
]
lower_of-cases (some p) k inc =
    elim (Bool-cases (is_open inc.status && lt_float inc.score p.1.score)) [
      | inl h ↦ rw h (inl (refl, ground arith))
      | inr h ↦ rw h (inr refl)
    ]

-- The incident that the loop finds is open and in the map.
pub lookup-lowest_open :
    (m : Assoc Incident) (low : Option (String × Incident)) (p : String × Incident)
    → IsDistinct m
    → lowest_open low m ≡ some p
    → ((lookup p.0 m ≡ some p.1) × (is_open p.1.status ≡ true)) ⊎ (low ≡ some p)
unfolding lowest_open lookup
lookup-lowest_open [] low p h e = inr e
lookup-lowest_open ((k, inc) ∷ m) low p h e =
    elim (lookup-lowest_open m (lower_of low (k, inc)) p h.1 e) [
      | inl (f, o) ↦ inl (ground (arith, eq_iff k p.0, h.0), o)
      | inr f ↦ elim (lower_of-cases low k inc) [
        | inr same ↦ inr (sym same ∙ f)
        | inl (this, o) ↦
            let q : (k, inc) ≡ p = some_inj (sym this ∙ f) in
            inl (
              subst (λ x. (lookup x.0 ((k, inc) ∷ m) ≡ some x.1) × (is_open x.1.status ≡ true)) q
                (simp eq_refl, o))
      ]
    ]

-- Where an incident is open, the loop finds one.
pub lowest_open-some :
    (m : Assoc Incident) (q : String × Incident)
    → (p : String × Incident) × (lowest_open (some q) m ≡ some p)
unfolding lowest_open
lowest_open-some [] q = (q, refl)
lowest_open-some ((k, inc) ∷ m) q = elim (lower_of-cases (some q) k inc) [
  | inl (e, o) ↦ let (p, f) = lowest_open-some m (k, inc) in (p, ap (λ x. lowest_open x m) e ∙ f)
  | inr e ↦ let (p, f) = lowest_open-some m q in (p, ap (λ x. lowest_open x m) e ∙ f)
]

pub lowest_open-found :
    (m : Assoc Incident)
    → 0 < count_open m
    → (p : String × Incident) × (lowest_open none m ≡ some p)
unfolding lowest_open count_if
lowest_open-found [] h = absurd (omega arith)
lowest_open-found ((k, inc) ∷ m) h = elim (Bool-cases (is_open inc.status)) [
  | inl o ↦ rw o (lowest_open-some m (k, inc))
  | inr o ↦ rw o (lowest_open-found m (ground arith))
]

-- Closing the lowest.
pub count_open-close :
    (m : Assoc Incident) (p : String × Incident)
    → lookup p.0 m ≡ some p.1
    → is_open p.1.status ≡ true
    → count_open (put p.0 (record p.1 { status = expired }) m) + 1 ≡ count_open m
unfolding is_open
count_open-close m p e o =
    let law =
      count_if-put (λ (i : Incident). is_open i.status) p.0 (record p.1 { status = expired }) m in
    ground (arith, law)

pub count_open-put_le :
    (k : String) (i : Incident) (m : Assoc Incident) → count_open (put k i m) ≤ count_open m + 1
count_open-put_le k i m = omega (
  arith,
  count_if-put (λ (i : Incident). is_open i.status) k i m,
  passes_le (λ (i : Incident). is_open i.status) (some i),
)

pub count_open-put_closed :
    (k : String) (i : Incident) (m : Assoc Incident)
    → is_open i.status ≡ false
    → count_open (put k i m) ≤ count_open m
count_open-put_closed k i m h =
    let law = count_if-put (λ (i : Incident). is_open i.status) k i m in ground (arith, law)

-- Writing an incident back with its status.
pub count_open-put_same :
    (k : String) (i old : Incident) (m : Assoc Incident)
    → lookup k m ≡ some old
    → i.status ≡ old.status
    → count_open (put k i m) ≡ count_open m
count_open-put_same k i old m e s =
    let law = count_if-put (λ (i : Incident). is_open i.status) k i m in
    ground (arith, law, ap is_open s)
