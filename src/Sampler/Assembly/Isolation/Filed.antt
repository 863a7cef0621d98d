-- ===== src/Sampler/Assembly/Isolation/Filed.antt =====
-- assembly.go: a trace under its key, and what of it the buffer's operations keep.
use mathlib.Core.List.{map}
use tracing_bot.Prelude.{
  ℕ, String, ◌≡◌, refl, sym, ap, subst, ◌∙◌, inl, inr, Bool, true, false, some, List, [], ◌∷◌, ◌++◌,
  ◌==◌, eq_iff, arith, Bool-cases, any, All, All-append, some_inj,
}
use tracing_bot.Sampler.Assembly.{
  Span, TraceKey, key_eq, OpenTrace, Buffer, find, store, with_span, is_seen, taken, left,
}

abbrev pub IsDistinct : List ℕ → Type 0
IsDistinct [] = Unit
IsDistinct (x ∷ xs) = (any (λ i. i == x) xs ≡ false) × IsDistinct xs

-- What holds of a span under a tenant.
abbrev pub Law : Type 1
Law = String → Span → Type 0

abbrev pub IsOwn : Law → OpenTrace → Span → Type 0
IsOwn W t s = W t.tenant s × (s.tenant ≡ t.tenant) × (s.trace_id ≡ t.trace_id)

-- The spans of a trace obey the law under its tenant, are its tenant's and have its trace id, and their
-- ids differ.
pub record IsClean (W : Law) (t : OpenTrace) : Type 0 where
  pub own : All (IsOwn W t) t.spans
  pub seen : t.seen_span_ids ≡ map (λ (s : Span). s.span_id) t.spans
  pub distinct : IsDistinct t.seen_span_ids

any-append :
    (x y : ℕ) (xs : List ℕ)
    → any (λ i. i == x) xs ≡ false
    → (y == x) ≡ false
    → any (λ i. i == x) (xs ++ y ∷ []) ≡ false
any-append x y [] h e = ground arith
any-append x y (z ∷ xs) h e = ground (arith, any-append x y xs)

IsDistinct-append :
    (x : ℕ) (xs : List ℕ) → any (λ i. i == x) xs ≡ false → IsDistinct xs → IsDistinct (xs ++ x ∷ [])
IsDistinct-append x [] h d = (refl, tt)
IsDistinct-append x (y ∷ xs) h d =
    (any-append y x xs d.0 (ground arith), IsDistinct-append x xs (ground arith) d.1)

map-append :
    (s : Span) (ss : List Span)
    → map (λ (x : Span). x.span_id) (ss ++ s ∷ [])
      ≡ map (λ (x : Span). x.span_id) ss ++ s.span_id ∷ []
map-append s [] = refl
map-append s (x ∷ ss) = ap (λ l. x.span_id ∷ l) (map-append s ss)

pub with_span-IsClean :
    (W : Law) (now : ℕ) (s : Span) (t : OpenTrace)
    → IsClean W t
    → IsOwn W t s
    → is_seen s t ≡ false
    → IsClean W (with_span now s t)
with_span-IsClean W now s t c e new = record {
  own = All-append (IsOwn W t) t.spans (s ∷ []) c.own (e, tt);
  seen = ap (λ l. l ++ s.span_id ∷ []) c.seen ∙ sym (map-append s t.spans);
  distinct = IsDistinct-append s.span_id t.seen_span_ids new c.distinct;
}

-- A clean trace under its own key.
pub record IsFiled (W : Law) (k : TraceKey) (t : OpenTrace) : Type 0 where
  pub tenant : t.tenant ≡ k.tenant
  pub trace_id : t.trace_id ≡ k.trace_id
  pub clean : IsClean W t

abbrev pub AllFiled : Law → Buffer → Type 0
AllFiled W b = All (λ e. IsFiled W e.0 e.1) b

key_eq-true :
    (j k : TraceKey) → key_eq j k ≡ true → (j.tenant ≡ k.tenant) × (j.trace_id ≡ k.trace_id)
key_eq-true j k h = ground (arith, eq_iff j.tenant k.tenant)

IsFiled-key :
    (W : Law) (j k : TraceKey) (t : OpenTrace) → key_eq j k ≡ true → IsFiled W j t → IsFiled W k t
IsFiled-key W j k t h f =
    let (a, b) = key_eq-true j k h in
    record { tenant = f.tenant ∙ a; trace_id = f.trace_id ∙ b; clean = f.clean }

pub find-IsFiled :
    (W : Law) (k : TraceKey) (b : Buffer) (t : OpenTrace)
    → AllFiled W b
    → find k b ≡ some t
    → IsFiled W k t
unfolding find
find-IsFiled W k [] t h e = cc
find-IsFiled W k ((j, u) ∷ rest) t h e = elim (Bool-cases (key_eq j k)) [
  | inl here ↦ subst (λ x. IsFiled W k x) (some_inj (rw here at e)) (IsFiled-key W j k u here h.0)
  | inr later ↦ find-IsFiled W k rest t h.1 (rw later at e)
]

pub store-AllFiled :
    (W : Law) (k : TraceKey) (t : OpenTrace) (b : Buffer)
    → IsFiled W k t
    → AllFiled W b
    → AllFiled W (store k t b)
unfolding store
store-AllFiled W k t [] f h = (f, tt)
store-AllFiled W k t ((j, u) ∷ rest) f h = elim (Bool-cases (key_eq j k)) [
  | inl here ↦ rw here (f, h.1)
  | inr later ↦ rw later (h.0, store-AllFiled W k t rest f h.1)
]

pub taken-IsClean :
    (W : Law) (f : OpenTrace → Bool) (b : Buffer) → AllFiled W b → All (IsClean W) (taken f b)
unfolding taken
taken-IsClean W f [] h = tt
taken-IsClean W f ((k, t) ∷ rest) h = elim (Bool-cases (f t)) [
  | inl due ↦ rw due (h.0.clean, taken-IsClean W f rest h.1)
  | inr early ↦ rw early (taken-IsClean W f rest h.1)
]

pub left-AllFiled :
    (W : Law) (f : OpenTrace → Bool) (b : Buffer) → AllFiled W b → AllFiled W (left f b)
unfolding left
left-AllFiled W f [] h = tt
left-AllFiled W f ((k, t) ∷ rest) h = elim (Bool-cases (f t)) [
  | inl due ↦ rw due (left-AllFiled W f rest h.1)
  | inr early ↦ rw early (h.0, left-AllFiled W f rest h.1)
]
