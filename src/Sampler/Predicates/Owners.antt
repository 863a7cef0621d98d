-- ===== src/Sampler/Predicates/Owners.antt =====
-- predicate.go: whose the predicates are, by their ids.
use mathlib.Core.List.{Memᴰ}
use tracing_bot.Prelude.{
  ℕ, zero, suc, String, ◌≡◌, refl, sym, ap, ◌∙◌, inl, inr, Bool, some, List, [], ◌∷◌, str_eq,
  eq_iff, Bool-cases, some_inj,
}
use tracing_bot.Sampler.Predicates.{
  InterestPredicate, Trace, wants, first_wanting, replace, keep_if, tenant_count, remove_at,
  map_all,
}

-- Two predicates with one id are of one tenant.
abbrev pub Coherent : List InterestPredicate → Type 0
Coherent ps = (p q : InterestPredicate) → Memᴰ p ps → Memᴰ q ps → p.id ≡ q.id → p.tenant ≡ q.tenant

-- A predicate has its id and its tenant from a list.
abbrev pub Comes : List InterestPredicate → InterestPredicate → Type 0
Comes ps p = (q : InterestPredicate) × Memᴰ q ps × (q.id ≡ p.id) × (q.tenant ≡ p.tenant)

pub Coherent-Comes :
    (ps qs : List InterestPredicate)
    → Coherent ps
    → ((p : InterestPredicate) → Memᴰ p qs → Comes ps p)
    → Coherent qs
Coherent-Comes ps qs c h p q mp mq same =
    let (p', mp', ip, tp) = h p mp in
    let (q', mq', iq, tq) = h q mq in sym tp ∙ c p' q' mp' mq' (ip ∙ same ∙ sym iq) ∙ tq

pub Comes-tail :
    (x : InterestPredicate) (ps : List InterestPredicate) (p : InterestPredicate)
    → Comes ps p
    → Comes (x ∷ ps) p
Comes-tail x ps p (q, m, i, t) = (q, Memᴰ.tail m, i, t)

-- A list that starts with a predicate like the first of the other.
Comes-cons :
    (y x : InterestPredicate) (qs ps : List InterestPredicate) (p : InterestPredicate)
    → x.id ≡ y.id
    → x.tenant ≡ y.tenant
    → (Memᴰ p qs → Comes ps p)
    → Memᴰ p (y ∷ qs)
    → Comes (x ∷ ps) p
Comes-cons y x qs ps p i t rest (Memᴰ.head e) =
    let e' : y ≡ p = sym e in
    (
      x,
      Memᴰ.head refl,
      i ∙ ap (λ (q : InterestPredicate). q.id) e',
      t ∙ ap (λ (q : InterestPredicate). q.tenant) e',
    )
Comes-cons y x qs ps p i t rest (Memᴰ.tail m) = Comes-tail x ps p (rest m)

pub keep_if-Comes :
    (f : InterestPredicate → Bool) (ps : List InterestPredicate) (p : InterestPredicate)
    → Memᴰ p (keep_if f ps)
    → Comes ps p
keep_if-Comes f [] p m = elim m [ ]
keep_if-Comes f (x ∷ ps) p m = elim (Bool-cases (f x)) [
  | inr dropped ↦ Comes-tail x ps p (keep_if-Comes f ps p (rw dropped at m))
  | inl kept ↦ Comes-cons x x (keep_if f ps) ps p refl refl (keep_if-Comes f ps p) (rw kept at m)
]

pub map_all-Comes :
    (f : InterestPredicate → InterestPredicate)
    → ((q : InterestPredicate) → (q.id ≡ (f q).id) × (q.tenant ≡ (f q).tenant))
    → (ps : List InterestPredicate) (p : InterestPredicate) → Memᴰ p (map_all f ps)
    → Comes ps p
map_all-Comes f h [] p m = elim m [ ]
map_all-Comes f h (x ∷ ps) p m =
    Comes-cons (f x) x (map_all f ps) ps p (h x).0 (h x).1 (map_all-Comes f h ps p) m

pub Comes-self : (ps : List InterestPredicate) (p : InterestPredicate) → Memᴰ p ps → Comes ps p
Comes-self ps p m = (p, m, refl, refl)

pub remove_at-Comes :
    (k : ℕ) (ps : List InterestPredicate) (p : InterestPredicate)
    → Memᴰ p (remove_at k ps)
    → Comes ps p
unfolding remove_at
remove_at-Comes k [] p m = elim m [ ]
remove_at-Comes zero (x ∷ ps) p m = Comes-tail x ps p (Comes-self ps p m)
remove_at-Comes (suc k) (x ∷ ps) p m =
    Comes-cons x x (remove_at k ps) ps p refl refl (remove_at-Comes k ps p) m

-- A predicate that replaces one of its own tenant.
abbrev pub Fits : InterestPredicate → List InterestPredicate → Type 0
Fits u ps = (q : InterestPredicate) → Memᴰ q ps → q.id ≡ u.id → q.tenant ≡ u.tenant

Fits-tail : (x u : InterestPredicate) (ps : List InterestPredicate) → Fits u (x ∷ ps) → Fits u ps
Fits-tail x u ps f q m = f q (Memᴰ.tail m)

pub replace-Comes :
    (u : InterestPredicate) (ps : List InterestPredicate) (p : InterestPredicate)
    → Fits u ps
    → Memᴰ p (replace u ps)
    → Comes ps p
unfolding replace
replace-Comes u [] p f m = elim m [ ]
replace-Comes u (x ∷ ps) p f m = elim (Bool-cases (str_eq x.id u.id)) [
  | inl here ↦
      let i = (eq_iff x.id u.id).0 here in
      Comes-cons u x ps ps p i (f x (Memᴰ.head refl) i) (Comes-self ps p) (rw here at m)
  | inr later ↦
      Comes-cons x x (replace u ps) ps p refl refl (replace-Comes u ps p (Fits-tail x u ps f))
        (rw later at m)
]

pub tenant_count-replace :
    (tid : String) (u : InterestPredicate) (ps : List InterestPredicate)
    → Fits u ps
    → tenant_count tid (replace u ps) ≡ tenant_count tid ps
unfolding tenant_count replace
tenant_count-replace tid u [] f = refl
tenant_count-replace tid u (x ∷ ps) f = elim (Bool-cases (str_eq x.id u.id)) [
  | inl here ↦ rw (here, f x (Memᴰ.head refl) ((eq_iff x.id u.id).0 here))
  | inr later ↦ rw (later, tenant_count-replace tid u ps (Fits-tail x u ps f))
]

-- The predicate that `Match` reports is in the set.
pub first_wanting-Mem :
    (t : Trace) (ps : List InterestPredicate) (p : InterestPredicate)
    → first_wanting t ps ≡ some p
    → Memᴰ p ps
unfolding first_wanting
first_wanting-Mem t [] p h = cc
first_wanting-Mem t (x ∷ ps) p h = elim (Bool-cases (wants t x)) [
  | inl yes' ↦ Memᴰ.head (sym (some_inj (rw yes' at h)))
  | inr no' ↦ Memᴰ.tail (first_wanting-Mem t ps p (rw no' at h))
]
