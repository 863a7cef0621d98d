-- ===== src/Sampler/Predicates/Runs.antt =====
-- predicate.go and impl.go: any calls of a predicate set, in any order.
use mathlib.Core.List.{Memᴰ}
use tracing_bot.Prelude.{
  ℕ, ◌+◌, ◌≤◌, ◌%◌, ◌^◌, String, ◌≡◌, refl, sym, ap, subst, ◌∙◌, ◌⊎◌, inl, inr, Option, none, some,
  List, [], ◌∷◌, ◌++◌, leb, arith, Bool-cases, Option-cases,
}
use tracing_bot.Prelude.Int.{ℤ}
use tracing_bot.Sampler.Predicates.{
  Time, InterestPredicate, Trace, PredicateSet, new_predicate_set, first_wanting, replace,
  store_updated, match_trace, tenant_count, remove_at, name, make_room, add, remove, expire_due,
  map_all, narrow_duration, narrow_errors, narrow_services, lowest_idx, drop_lowest, narrow,
  set_interest_predicate, remove_interest_predicate,
}
use tracing_bot.Sampler.Predicates.Eviction.{evict_idx-some}
use tracing_bot.Sampler.Predicates.Owners.{
  Coherent, Comes, Comes-self, Coherent-Comes, keep_if-Comes, map_all-Comes, remove_at-Comes, Fits,
  replace-Comes, tenant_count-replace, first_wanting-Mem,
}
use tracing_bot.Sampler.Predicates.Bound.{
  IsBounded, add-IsBounded, name_keeps, make_room_lem, new_predicate_set-IsBounded,
  tenant_count-keep_if, tenant_count-map_all, tenant_count-remove_at_le,
}

pub data Call : Type 0 where
  setting : String → InterestPredicate → Call
  removing : String → String → Call
  matching : Trace → Call
  expiring : Time → Call
  narrowing : ℕ → Call

unfoldable pub apply : PredicateSet → Call → PredicateSet
apply s (setting tid p) = (set_interest_predicate s tid p).0
apply s (removing tid id) = remove_interest_predicate s tid id
apply s (matching t) = (match_trace s t).0
apply s (expiring now) = (expire_due s now).0
apply s (narrowing level) = (narrow s level).0

-- A predicate that is set has no id that a predicate of another tenant has.
abbrev pub Admits : PredicateSet → Call → Type 0
Admits s (setting tid p) = Fits (name s (record p { tenant = tid })).1 s.snapshot
Admits s _ = Unit

-- The sets that admitted calls lead to.
pub data Reach (s : PredicateSet) : PredicateSet → Type 0 where
  here : Reach s s
  next : {r : PredicateSet} → Reach s r → (c : Call) → Admits r c → Reach s (apply r c)

-- The invariant of a set with the bound `cap`.
pub record IsSound (cap : ℕ) (s : PredicateSet) : Type 0 where
  pub cap_kept : s.max_preds ≡ cap
  pub bounded : IsBounded s
  pub coherent : Coherent s.snapshot

-- A change of the predicates that gives no tenant more of them.
shrunk :
    (cap : ℕ) (s : PredicateSet) (ps : List InterestPredicate)
    → IsSound cap s
    → ((tid : String) → tenant_count tid ps ≤ tenant_count tid s.snapshot)
    → ((p : InterestPredicate) → Memᴰ p ps → Comes s.snapshot p)
    → IsSound cap (record s { snapshot = ps })
shrunk cap s ps i less comes = record {
  cap_kept = i.cap_kept;
  bounded = record {
    room = i.bounded.room;
    bound = λ tid. omega (arith, less tid, i.bounded.bound tid);
  };
  coherent = Coherent-Comes s.snapshot ps i.coherent comes;
}

mem-append :
    (xs : List InterestPredicate) (p q : InterestPredicate)
    → Memᴰ q (xs ++ p ∷ [])
    → Memᴰ q xs ⊎ (q ≡ p)
mem-append [] p q (Memᴰ.head e) = inr e
mem-append [] p q (Memᴰ.tail m) = elim m [ ]
mem-append (x ∷ xs) p q (Memᴰ.head e) = inl (Memᴰ.head e)
mem-append (x ∷ xs) p q (Memᴰ.tail m) = elim (mem-append xs p q m) [
  | inl n ↦ inl (Memᴰ.tail n)
  | inr e ↦ inr e
]

make_room-Comes :
    (s : PredicateSet) (tid : String)
    → IsBounded s
    → (p : InterestPredicate) → Memᴰ p (make_room s tid).snapshot
    → Comes s.snapshot p
unfolding make_room
make_room-Comes s tid b p m = elim (Bool-cases (leb s.max_preds (tenant_count tid s.snapshot))) [
  | inr free ↦ Comes-self s.snapshot p (rw (free, make_room) at m)
  | inl full ↦
      let (k, q, g, own, e) = evict_idx-some tid s.snapshot (ground (arith, b.room)) in
      remove_at-Comes k s.snapshot p (rw (full, make_room, e) at m)
]

-- What is known of a predicate that fits also holds of the ones that come from the list.
Fits-Comes :
    (ps : List InterestPredicate) (u p : InterestPredicate)
    → Fits u ps
    → Comes ps p
    → p.id ≡ u.id
    → p.tenant ≡ u.tenant
Fits-Comes ps u p f (q, m, i, t) same = sym t ∙ f q m (i ∙ same)

Coherent-append :
    (ps xs : List InterestPredicate) (u : InterestPredicate)
    → Coherent ps
    → Fits u ps
    → ((p : InterestPredicate) → Memᴰ p xs → Comes ps p)
    → Coherent (xs ++ u ∷ [])
Coherent-append ps xs u c f comes p q mp mq same = elim (mem-append xs u p mp) [
  | inl a ↦ elim (mem-append xs u q mq) [
    | inl b ↦ Coherent-Comes ps xs c comes p q a b same
    | inr e ↦
        Fits-Comes ps u p f (comes p a) (same ∙ ap (λ (x : InterestPredicate). x.id) e)
        ∙ ap (λ (x : InterestPredicate). x.tenant) (sym e)
  ]
  | inr e ↦ elim (mem-append xs u q mq) [
    | inl b ↦
        ap (λ (x : InterestPredicate). x.tenant) e
        ∙ sym (Fits-Comes ps u q f (comes q b) (sym same ∙ ap (λ (x : InterestPredicate). x.id) e))
    | inr e' ↦ ap (λ (x : InterestPredicate). x.tenant) (e ∙ sym e')
  ]
]

add-IsSound :
    (cap : ℕ) (s : PredicateSet) (p : InterestPredicate)
    → IsSound cap s
    → Fits (name s p).1 s.snapshot
    → IsSound cap (add s p).0
unfolding add
add-IsSound cap s p i f =
    let (same, kept, own) = name_keeps s p in
    let s' = (name s p).0 in
    let p' = (name s p).1 in
    let b : IsBounded s' = record {
      room = rw kept i.bounded.room;
      bound = λ tid. rw (same, kept) (i.bounded.bound tid);
    } in
    record {
      cap_kept = (make_room_lem s' p'.tenant b).2 ∙ kept ∙ i.cap_kept;
      bounded = add-IsBounded s p i.bounded;
      coherent =
          Coherent-append s.snapshot (make_room s' p'.tenant).snapshot p' i.coherent f
            (λ q m. subst (λ ps. Comes ps q) same (make_room-Comes s' p'.tenant b q m));
    }

match-IsSound :
    (cap : ℕ) (s : PredicateSet) (t : Trace) → IsSound cap s → IsSound cap (match_trace s t).0
unfolding match_trace store_updated
match-IsSound cap s t i = elim (Option-cases (first_wanting t s.snapshot)) [
  | inl none' ↦ rw (none', match_trace) i
  | inr (p, found) ↦
      let u : InterestPredicate = record p { hits = (p.hits + 1) % 2 ^ 64 } in
      let f : Fits u s.snapshot =
        λ q m same. i.coherent q p m (first_wanting-Mem t s.snapshot p found) same in
      rw (found, match_trace)
        (shrunk cap s (replace u s.snapshot) i
          (λ tid. omega (arith, tenant_count-replace tid u s.snapshot f))
          (λ q m. replace-Comes u s.snapshot q f m))
]

narrowed :
    (cap : ℕ) (s : PredicateSet) (f : InterestPredicate → InterestPredicate)
    → IsSound cap s
    → ((q : InterestPredicate) → (q.id ≡ (f q).id) × (q.tenant ≡ (f q).tenant))
    → IsSound cap (record s { snapshot = map_all f s.snapshot })
narrowed cap s f i h =
    shrunk cap s (map_all f s.snapshot) i
      (λ tid. omega (arith, tenant_count-map_all f tid s.snapshot (λ p. sym (h p).1)))
      (λ q m. map_all-Comes f h s.snapshot q m)

lowest-IsSound :
    (cap : ℕ) (s : PredicateSet) (c : Option (ℕ × InterestPredicate))
    → IsSound cap s
    → IsSound cap (drop_lowest s c).0
lowest-IsSound cap s none i = i
lowest-IsSound cap s (some (k, q)) i =
    shrunk cap s (remove_at k s.snapshot) i (λ tid. tenant_count-remove_at_le tid k s.snapshot)
      (λ p m. remove_at-Comes k s.snapshot p m)

narrow-IsSound :
    (cap : ℕ) (s : PredicateSet) (level : ℕ) → IsSound cap s → IsSound cap (narrow s level).0
unfolding narrow
narrow-IsSound cap s level i = ground (
  arith,
  narrowed cap s narrow_duration i (λ q. (refl, refl)),
  narrowed cap s narrow_errors i (λ q. (refl, refl)),
  narrowed cap s narrow_services i (λ q. (refl, refl)),
  lowest-IsSound cap s (lowest_idx 0 none s.snapshot) i,
)

pub apply-IsSound :
    (cap : ℕ) (s : PredicateSet) (c : Call) → IsSound cap s → Admits s c → IsSound cap (apply s c)
unfolding apply set_interest_predicate remove_interest_predicate remove expire_due
apply-IsSound cap s (setting tid p) i f = add-IsSound cap s (record p { tenant = tid }) i f
apply-IsSound cap s (removing tid id) i f =
    shrunk cap s _ i (λ t. tenant_count-keep_if _ t s.snapshot)
      (λ q m. keep_if-Comes _ s.snapshot q m)
apply-IsSound cap s (matching t) i f = match-IsSound cap s t i
apply-IsSound cap s (expiring now) i f =
    shrunk cap s _ i (λ t. tenant_count-keep_if _ t s.snapshot)
      (λ q m. keep_if-Comes _ s.snapshot q m)
apply-IsSound cap s (narrowing level) i f = narrow-IsSound cap s level i

new_predicate_set-IsSound : (m : ℤ) → IsSound (new_predicate_set m).max_preds (new_predicate_set m)
new_predicate_set-IsSound m = record {
  cap_kept = refl;
  bounded = new_predicate_set-IsBounded m;
  coherent = unfold new_predicate_set in λ p q mp mq same. elim mp [ ];
}

Reach-IsSound :
    (m : ℤ) (s : PredicateSet)
    → Reach (new_predicate_set m) s
    → IsSound (new_predicate_set m).max_preds s
Reach-IsSound m s here = new_predicate_set-IsSound m
Reach-IsSound m s (next {r} w c a) =
    apply-IsSound (new_predicate_set m).max_preds r c (Reach-IsSound m r w) a

-- After any calls of a new set, no tenant has more predicates than the limit that the set was made
-- with, if no predicate is set under the id of a predicate of another tenant.
pub tenant_count-Reach :
    (m : ℤ) (s : PredicateSet) (tid : String)
    → Reach (new_predicate_set m) s
    → tenant_count tid s.snapshot ≤ (new_predicate_set m).max_preds
tenant_count-Reach m s tid w =
    let i = Reach-IsSound m s w in
    subst (λ n. tenant_count tid s.snapshot ≤ n) i.cap_kept (i.bounded.bound tid)
