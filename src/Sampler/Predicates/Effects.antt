-- ===== src/Sampler/Predicates/Effects.antt =====
-- predicate.go: what one call does to the predicates.
use mathlib.Core.List.{Memᴰ}
use mathlib.Core.List.Memᴰ
use tracing_bot.Prelude.{
  ◌⊎◌, ◌&&◌, ◌==◌, sym, subst, eq_iff, if_elim, ℕ, zero, suc, ◌≤◌, ◌<◌, String, ◌≡◌, refl, ap, ◌∙◌,
  inl, inr, Bool, true, false, not, none, some, List, [], ◌∷◌, ◌++◌, leb, str_eq, arith, Bool-cases,
}
use tracing_bot.Sampler.Predicates.{
  is_weaker, Time, InterestPredicate, PredicateSet, keep_if, list, tenant_count, evict_idx,
  remove_at, name, make_room, add, is_expired, expired_count, expire_due, set_interest_predicate,
}
use tracing_bot.Sampler.Predicates.Eviction.{get_elem?, evict_idx-some, Weakest, evict_idx-Weakest}
use tracing_bot.Sampler.Predicates.Bound.{name_keeps}

-- A list with the predicate at a position taken out.
remove_at-splits :
    (ps : List InterestPredicate) (k : ℕ) (q : InterestPredicate)
    → get_elem? ps k ≡ some q
    → (before : List InterestPredicate) × (after : List InterestPredicate) × (ps
        ≡ before ++ q ∷ after)
      × (remove_at k ps ≡ before ++ after)
unfolding remove_at
remove_at-splits [] k q h = cc
remove_at-splits (x ∷ ps) zero q h = let same : x ≡ q = cc in ([], ps, ap (λ y. y ∷ ps) same, refl)
remove_at-splits (x ∷ ps) (suc k) q h =
    let (before, after, e, f) = remove_at-splits ps k q h in
    (x ∷ before, after, ap (λ l. x ∷ l) e, ap (λ l. x ∷ l) f)

-- `q` goes before `x`: it has fewer hits, or as many and no later expiry.
abbrev pub GoesBefore : InterestPredicate → InterestPredicate → Type 0
GoesBefore q x = (q.hits < x.hits) ⊎ ((q.hits ≡ x.hits) × (q.expires_at ≤ x.expires_at))

GoesBefore-Weakest :
    (tid : String) (q x : InterestPredicate) (ps : List InterestPredicate)
    → Weakest tid q ps
    → Memᴰ x ps
    → x.tenant ≡ tid
    → GoesBefore q x
unfolding is_weaker
GoesBefore-Weakest tid q x [] w m own = absurd (Memᴰ.not-nil m)
GoesBefore-Weakest tid q x (y ∷ ps) w m own = elim (Bool-cases (str_eq y.tenant tid)) [
  | inr other ↦ elim m [
    | Memᴰ.head e ↦
        let t : y.tenant ≡ tid = ap (λ (z : InterestPredicate). z.tenant) (sym e) ∙ own in
        absurd (ground (arith, eq_iff y.tenant tid))
    | Memᴰ.tail m' ↦ GoesBefore-Weakest tid q x ps (rw other at w) m' own
  ]
  | inl mine ↦
      let (first, rest) = rw mine at w in
      elim m [
        | Memᴰ.head e ↦ subst (GoesBefore q) (sym e) (ground arith)
        | Memᴰ.tail m' ↦ GoesBefore-Weakest tid q x ps rest m' own
      ]
]

-- What `Add` does for a tenant that is at the bound: the victim is taken out, and the new predicate, which
-- may have got an id, comes last.
pub record Evicts (s : PredicateSet) (p : InterestPredicate) (r : PredicateSet) : Type 0 where
  pub before : List InterestPredicate
  pub victim : InterestPredicate
  pub after : List InterestPredicate
  pub named : InterestPredicate
  pub held : s.snapshot ≡ before ++ victim ∷ after
  pub left : r.snapshot ≡ (before ++ after) ++ named ∷ []
  pub newcomer : named ≡ record p { id = named.id }
  pub mine : victim.tenant ≡ p.tenant
  pub first :
      (x : InterestPredicate) → Memᴰ x s.snapshot → x.tenant ≡ p.tenant → GoesBefore victim x

name-newcomer :
    (s : PredicateSet) (p : InterestPredicate) → (name s p).1 ≡ record p { id = (name s p).1.id }
unfolding name
name-newcomer s p =
    if_elim (λ (x : PredicateSet × InterestPredicate). x.1 ≡ record p { id = x.1.id })
      (str_eq p.id "") (λ _. refl) (λ _. refl)

-- Where a tenant has as many predicates as the set allows, `Add` removes one of that tenant's, of
-- which none has fewer hits, nor as many hits and an earlier expiry, and puts the new one at the end.
pub add-Evicts :
    (s : PredicateSet) (p : InterestPredicate)
    → 0 < s.max_preds
    → s.max_preds ≤ tenant_count p.tenant s.snapshot
    → Evicts s p (add s p).0
unfolding add make_room
add-Evicts s p positive full =
    let (same, kept, own) = name_keeps s p in
    let (k, q, g, mine, e) = evict_idx-some p.tenant s.snapshot (omega (arith, positive, full)) in
    let (before, after, held, left) = remove_at-splits s.snapshot k q g in
    let at_bound : leb (name s p).0.max_preds
          (tenant_count (name s p).1.tenant (name s p).0.snapshot)
        ≡ true =
      rw (kept, own, same) (ground arith) in
    let chosen : evict_idx (name s p).1.tenant 0 none (name s p).0.snapshot ≡ some (k, q) =
      rw (own, same) e in
    record {
      before = before;
      victim = q;
      after = after;
      named = (name s p).1;
      held = held;
      left = rw (at_bound, make_room, chosen, same) (ap (λ l. l ++ (name s p).1 ∷ []) left);
      newcomer = name-newcomer s p;
      mine = mine;
      first = λ x m t.
          GoesBefore-Weakest p.tenant q x s.snapshot
            (evict_idx-Weakest p.tenant s.snapshot (k, q) e) m t;
    }

keep_if-remove_at :
    (f : InterestPredicate → Bool) (ps : List InterestPredicate) (k : ℕ) (q : InterestPredicate)
    → get_elem? ps k ≡ some q
    → f q ≡ false
    → keep_if f (remove_at k ps) ≡ keep_if f ps
unfolding remove_at
keep_if-remove_at f [] k q h out = cc
keep_if-remove_at f (x ∷ ps) zero q h out = let same : x ≡ q = cc in rw (same, out)
keep_if-remove_at f (x ∷ ps) (suc k) q h out = rw (keep_if-remove_at f ps k q h out)

keep_if-append :
    (f : InterestPredicate → Bool) (ps : List InterestPredicate) (p : InterestPredicate)
    → f p ≡ false
    → keep_if f (ps ++ p ∷ []) ≡ keep_if f ps
keep_if-append f [] p out = rw out
keep_if-append f (x ∷ ps) p out = rw (keep_if-append f ps p out)

make_room_other :
    (s : PredicateSet) (tid other : String)
    → 0 < s.max_preds
    → str_eq tid other ≡ false
    → list other (make_room s tid) ≡ list other s
unfolding make_room list
make_room_other s tid other positive ne =
    elim (Bool-cases (leb s.max_preds (tenant_count tid s.snapshot))) [
      | inr free ↦ rw (free, make_room)
      | inl full ↦
          let (k, q, g, own, e) = evict_idx-some tid s.snapshot (ground (arith, positive)) in
          rw (full, make_room, e)
            (keep_if-remove_at (λ p. str_eq p.tenant other) s.snapshot k q g (rw own ne))
    ]

-- Setting a predicate of one tenant, evictions included, leaves the list of every other tenant as it
-- was.
pub list-set_interest_predicate :
    (s : PredicateSet) (tid other : String) (p : InterestPredicate)
    → 0 < s.max_preds
    → str_eq tid other ≡ false
    → list other (set_interest_predicate s tid p).0 ≡ list other s
unfolding set_interest_predicate add list
list-set_interest_predicate s tid other p positive ne =
    let p' : InterestPredicate = record p { tenant = tid } in
    let (same, kept, own) = name_keeps s p' in
    let s' = (name s p').0 in
    keep_if-append (λ q. str_eq q.tenant other) (make_room s' (name s p').1.tenant).snapshot
      (name s p').1 (rw own ne)
    ∙ make_room_other s' (name s p').1.tenant other (rw kept positive) (rw own ne)
    ∙ ap (keep_if (λ q. str_eq q.tenant other)) same

-- What is left of the predicates at a time, and how many went: those went whose expiry is set and not later.
pub data Sweeps (now : Time) : List InterestPredicate → List InterestPredicate → ℕ → Type 0 where
  done : Sweeps now [] [] 0
  stays :
      {p : InterestPredicate} {ps rs : List InterestPredicate} {n : ℕ}
      → (p.expires_at ≡ 0) ⊎ (now < p.expires_at)
      → Sweeps now ps rs n
      → Sweeps now (p ∷ ps) (p ∷ rs) n
  goes :
      {p : InterestPredicate} {ps rs : List InterestPredicate} {n : ℕ}
      → 0 < p.expires_at
      → p.expires_at ≤ now
      → Sweeps now ps rs n
      → Sweeps now (p ∷ ps) rs (suc n)

keep_if-Sweeps :
    (now : Time) (ps : List InterestPredicate)
    → Sweeps now ps (keep_if (λ p. not (is_expired now p)) ps) (expired_count now ps)
unfolding expired_count is_expired
keep_if-Sweeps now [] = done
keep_if-Sweeps now (p ∷ ps) = elim (Bool-cases (not (p.expires_at == 0) && leb p.expires_at now)) [
  | inl h ↦ rw h (goes (ground arith) (ground arith) (keep_if-Sweeps now ps))
  | inr h ↦ rw h (stays (ground arith) (keep_if-Sweeps now ps))
]

expired_count-keep_if :
    (now : Time) (ps : List InterestPredicate)
    → expired_count now (keep_if (λ p. not (is_expired now p)) ps) ≡ 0
unfolding expired_count
expired_count-keep_if now [] = refl
expired_count-keep_if now (p ∷ ps) = ground (arith, expired_count-keep_if now ps)

-- `ExpireDue` removes exactly the predicates whose expiry is set and not later than the time, keeps the others
-- in their order and reports how many it removed; a second call at the same time reports none.
pub expire_due_lem :
    (s : PredicateSet) (now : Time)
    → let (r, n) = expire_due s now in
      Sweeps now s.snapshot r.snapshot n × ((expire_due r now).1 ≡ 0)
unfolding expire_due
expire_due_lem s now = (keep_if-Sweeps now s.snapshot, expired_count-keep_if now s.snapshot)
