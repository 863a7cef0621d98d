-- ===== src/Sampler/Predicates/Bound.antt =====
-- predicate.go: the bound on a tenant's predicates, over every run.
use tracing_bot.Prelude.{
  ℕ, zero, suc, ◌+◌, ◌≤◌, ◌<◌, String, ◌≡◌, refl, subst, inl, inr, Bool, List, [], ◌∷◌, ◌++◌, leb,
  str_eq, eq_iff, arith, Bool-cases, if◌then◌else◌,
}
use tracing_bot.Prelude.Int.{ℤ}
use tracing_bot.Sampler.Predicates.{
  InterestPredicate, PredicateSet, new_predicate_set, keep_if, tenant_count, remove_at, name,
  make_room, add, map_all,
}
use tracing_bot.Sampler.Predicates.Eviction.{evict_idx-some, tenant_count-remove_at}

pub tenant_count-append :
    (tid : String) (ps : List InterestPredicate) (p : InterestPredicate)
    → tenant_count tid (ps ++ p ∷ []) ≡ tenant_count tid ps + (if str_eq p.tenant tid then 1 else 0)
unfolding tenant_count
tenant_count-append tid [] p = ground arith
tenant_count-append tid (q ∷ ps) p = ground (arith, tenant_count-append tid ps p)

pub tenant_count-keep_if :
    (f : InterestPredicate → Bool) (tid : String) (ps : List InterestPredicate)
    → tenant_count tid (keep_if f ps) ≤ tenant_count tid ps
unfolding tenant_count
tenant_count-keep_if f tid [] = omega arith
tenant_count-keep_if f tid (p ∷ ps) = ground (arith, tenant_count-keep_if f tid ps)

pub tenant_count-map_all :
    (f : InterestPredicate → InterestPredicate) (tid : String) (ps : List InterestPredicate)
    → ((p : InterestPredicate) → (f p).tenant ≡ p.tenant)
    → tenant_count tid (map_all f ps) ≡ tenant_count tid ps
unfolding tenant_count
tenant_count-map_all f tid [] h = refl
tenant_count-map_all f tid (p ∷ ps) h = rw (h p, tenant_count-map_all f tid ps h)

pub tenant_count-remove_at_le :
    (tid : String) (k : ℕ) (ps : List InterestPredicate)
    → tenant_count tid (remove_at k ps) ≤ tenant_count tid ps
unfolding tenant_count remove_at
tenant_count-remove_at_le tid k [] = omega arith
tenant_count-remove_at_le tid zero (p ∷ ps) = ground arith
tenant_count-remove_at_le tid (suc k) (p ∷ ps) = ground (arith, tenant_count-remove_at_le tid k ps)

pub record IsBounded (s : PredicateSet) : Type 0 where
  pub room : 0 < s.max_preds
  pub bound : (tid : String) → tenant_count tid s.snapshot ≤ s.max_preds

pub new_predicate_set-IsBounded : (m : ℤ) → IsBounded (new_predicate_set m)
unfolding new_predicate_set tenant_count
new_predicate_set-IsBounded m = record { room = ground arith; bound = λ tid. omega arith }

pub name_keeps :
    (s : PredicateSet) (p : InterestPredicate)
    → ((name s p).0.snapshot ≡ s.snapshot)
      × ((name s p).0.max_preds ≡ s.max_preds)
      × ((name s p).1.tenant ≡ p.tenant)
unfolding name
name_keeps s p = ground arith

-- After room was made, the tenant has one predicate less than the bound, and no tenant has more than
-- before.
pub make_room_lem :
    (s : PredicateSet) (tid : String)
    → IsBounded s
    → (tenant_count tid (make_room s tid).snapshot < s.max_preds)
      × ((t : String) → tenant_count t (make_room s tid).snapshot ≤ tenant_count t s.snapshot)
      × ((make_room s tid).max_preds ≡ s.max_preds)
unfolding make_room
make_room_lem s tid b = elim (Bool-cases (leb s.max_preds (tenant_count tid s.snapshot))) [
  | inr free ↦ rw (free, make_room) ((ground arith), (λ t. omega arith), refl)
  | inl full ↦
      let (k, q, g, own, e) = evict_idx-some tid s.snapshot (ground (arith, b.room)) in
      rw (full, make_room, e)
        (
          ground (
            arith,
            tenant_count-remove_at tid s.snapshot k q g,
            eq_iff q.tenant tid,
            b.bound tid,
          ),
          (λ t. tenant_count-remove_at_le t k s.snapshot),
          refl,
        )
]

pub add-IsBounded : (s : PredicateSet) (p : InterestPredicate) → IsBounded s → IsBounded (add s p).0
unfolding add
add-IsBounded s p b =
    let (same, cap, own) = name_keeps s p in
    let s' = (name s p).0 in
    let p' = (name s p).1 in
    let b' : IsBounded s' = record {
      room = rw cap b.room;
      bound = λ tid. rw (same, cap) (b.bound tid);
    } in
    let (less, rest, kept) = make_room_lem s' p'.tenant b' in
    record {
      room = rw kept b'.room;
      bound = λ tid. elim (Bool-cases (str_eq p'.tenant tid)) [
        | inl mine ↦
            rw (tenant_count-append, kept, mine)
              (omega (
                arith,
                subst (λ t. tenant_count t (make_room s' p'.tenant).snapshot < s'.max_preds)
                    ((eq_iff p'.tenant tid).0 mine) less,
              ))
        | inr other ↦ rw (tenant_count-append, kept, other) (omega (arith, rest tid, b'.bound tid))
      ];
    }
