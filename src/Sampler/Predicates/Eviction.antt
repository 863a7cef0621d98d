-- ===== src/Sampler/Predicates/Eviction.antt =====
-- predicate.go: which predicate `Add` evicts.
use tracing_bot.Prelude.{
  ℕ, zero, suc, ◌+◌, ◌<◌, String, ◌≡◌, refl, sym, ap, subst, ◌∙◌, ◌⊎◌, inl, inr, Bool, true, false,
  Option, none, some, List, [], ◌∷◌, str_eq, eq_iff, arith, Bool-cases, if◌then◌else◌, All,
}
use tracing_bot.Sampler.Predicates.{
  InterestPredicate, is_weaker, better, evict_idx, remove_at, tenant_count, keep_if,
}

-- The predicate at a position.
abbrev pub get_elem? : List InterestPredicate → ℕ → Option InterestPredicate
get_elem? [] k = none
get_elem? (p ∷ ps) zero = some p
get_elem? (p ∷ ps) (suc k) = get_elem? ps k

-- What the scan returns: the choice that it started with, or a predicate of the tenant at its place.
pub data IsChosen (tid : String) (i : ℕ) (best r : Option (ℕ × InterestPredicate))
    (ps : List InterestPredicate) : Type 0 where
  stays : r ≡ best → IsChosen tid i best r ps
  taken :
      (k : ℕ) (q : InterestPredicate)
      → get_elem? ps k ≡ some q
      → q.tenant ≡ tid
      → r ≡ some (i + k, q)
      → IsChosen tid i best r ps

IsChosen-cons :
    (tid : String) (i : ℕ) (best best' r : Option (ℕ × InterestPredicate)) (p : InterestPredicate)
    (ps : List InterestPredicate)
    → (best' ≡ best) ⊎ ((p.tenant ≡ tid) × (best' ≡ some (i, p)))
    → IsChosen tid (suc i) best' r ps
    → IsChosen tid i best r (p ∷ ps)
IsChosen-cons tid i best best' r p ps (inl same) (stays e) = stays (e ∙ same)
IsChosen-cons tid i best best' r p ps (inr (t, new)) (stays e) =
    taken 0 p refl t (e ∙ new ∙ ap (λ k. some (k, p)) (omega arith))
IsChosen-cons tid i best best' r p ps h (taken k q g t e) =
    taken (suc k) q g t (e ∙ ap (λ j. some (j, q)) (omega arith))

better-cases :
    (i : ℕ) (p : InterestPredicate) (best : Option (ℕ × InterestPredicate))
    → (better i p best ≡ best) ⊎ (better i p best ≡ some (i, p))
better-cases i p none = inr refl
better-cases i p (some b) = ground arith

pub evict_idx-IsChosen :
    (tid : String) (i : ℕ) (best : Option (ℕ × InterestPredicate)) (ps : List InterestPredicate)
    → IsChosen tid i best (evict_idx tid i best ps) ps
unfolding evict_idx
evict_idx-IsChosen tid i best [] = stays refl
evict_idx-IsChosen tid i best (p ∷ ps) =
    let best' = if str_eq p.tenant tid then better i p best else best in
    IsChosen-cons tid i best best' (evict_idx tid (suc i) best' ps) p ps
      (ground (arith, better-cases i p best, eq_iff p.tenant tid))
      (evict_idx-IsChosen tid (suc i) best' ps)

-- A tenant that has a predicate, or a choice made before, gives a choice.
abbrev is_chosen : Option (ℕ × InterestPredicate) → Bool
is_chosen none = false
is_chosen (some c) = true

is_chosen-better :
    (i : ℕ) (p : InterestPredicate) (best : Option (ℕ × InterestPredicate))
    → is_chosen (better i p best) ≡ true
is_chosen-better i p none = refl
is_chosen-better i p (some b) = ground arith

is_chosen-evict_idx :
    (tid : String) (i : ℕ) (best : Option (ℕ × InterestPredicate)) (ps : List InterestPredicate)
    → (is_chosen best ≡ true) ⊎ (0 < tenant_count tid ps)
    → is_chosen (evict_idx tid i best ps) ≡ true
unfolding evict_idx tenant_count
is_chosen-evict_idx tid i best [] h = ground arith
is_chosen-evict_idx tid i best (p ∷ ps) h =
    is_chosen-evict_idx tid (suc i) _ ps (ground (arith, is_chosen-better i p best))

-- Where the tenant has a predicate, the scan finds one of the tenant.
pub evict_idx-some :
    (tid : String) (ps : List InterestPredicate)
    → 0 < tenant_count tid ps
    → (k : ℕ) × (q : InterestPredicate) × (get_elem? ps k ≡ some q)
      × (q.tenant ≡ tid)
      × (evict_idx tid 0 none ps ≡ some (k, q))
evict_idx-some tid ps h =
    let is = is_chosen-evict_idx tid 0 none ps (inr h) in
    elim (evict_idx-IsChosen tid 0 none ps) [
      | stays e ↦ cc (e, is)
      | taken k q g t e ↦ (k, q, g, t, e ∙ ap (λ j. some (j, q)) (omega arith))
    ]

-- None of the tenant's predicates is weaker than the choice.
abbrev pub Weakest : String → InterestPredicate → List InterestPredicate → Type 0
Weakest tid q ps = All (λ p. is_weaker p q ≡ false) (keep_if (λ p. str_eq p.tenant tid) ps)

abbrev NotWeaker : Option (ℕ × InterestPredicate) → InterestPredicate → Type 0
NotWeaker none q = Unit
NotWeaker (some b) q = is_weaker b.1 q ≡ false

NotWeaker-better :
    (i : ℕ) (p : InterestPredicate) (best : Option (ℕ × InterestPredicate)) (q : InterestPredicate)
    → NotWeaker (better i p best) q
    → NotWeaker best q × (is_weaker p q ≡ false)
unfolding is_weaker
NotWeaker-better i p none q h = (tt, h)
NotWeaker-better i p (some b) q h = ground arith

NotWeaker-self : (c : ℕ × InterestPredicate) → NotWeaker (some c) c.1
unfolding is_weaker
NotWeaker-self c = ground arith

evict_idx-NotWeaker :
    (tid : String) (i : ℕ) (best : Option (ℕ × InterestPredicate)) (ps : List InterestPredicate)
    (c : ℕ × InterestPredicate)
    → evict_idx tid i best ps ≡ some c
    → NotWeaker best c.1 × Weakest tid c.1 ps
unfolding evict_idx
evict_idx-NotWeaker tid i best [] c h =
    (subst (λ b. NotWeaker b c.1) (sym h) (NotWeaker-self c), tt)
evict_idx-NotWeaker tid i best (p ∷ ps) c h = elim (Bool-cases (str_eq p.tenant tid)) [
  | inl own ↦
      let (w, rest) = evict_idx-NotWeaker tid (suc i) (better i p best) ps c (rw own at h) in
      let (old, new) = NotWeaker-better i p best c.1 w in (old, rw own (new, rest))
  | inr other ↦
      let (w, rest) = evict_idx-NotWeaker tid (suc i) best ps c (rw other at h) in
      (w, rw other rest)
]

pub evict_idx-Weakest :
    (tid : String) (ps : List InterestPredicate) (c : ℕ × InterestPredicate)
    → evict_idx tid 0 none ps ≡ some c
    → Weakest tid c.1 ps
evict_idx-Weakest tid ps c h = (evict_idx-NotWeaker tid 0 none ps c h).1

-- What a removal does to the counts.
pub tenant_count-remove_at :
    (tid : String) (ps : List InterestPredicate) (k : ℕ) (q : InterestPredicate)
    → get_elem? ps k ≡ some q
    → tenant_count tid (remove_at k ps) + (if str_eq q.tenant tid then 1 else 0)
      ≡ tenant_count tid ps
unfolding tenant_count remove_at
tenant_count-remove_at tid [] k q h = cc
tenant_count-remove_at tid (p ∷ ps) zero q h = let same : p ≡ q = cc in rw same (ground arith)
tenant_count-remove_at tid (p ∷ ps) (suc k) q h =
    ground (arith, tenant_count-remove_at tid ps k q h)
