-- ===== src/Anomaly/Incidents/Bound.antt =====
-- No tenant has more open incidents than the configuration allows, whatever calls the grouper gets.
use tracing_bot.Prelude.{
  ℕ, ◌+◌, ◌≤◌, String, Bool, false, Option, none, some, List, [], ◌∷◌, ltb, str_eq, eq_iff, ◌≡◌,
  refl, sym, ap, ◌∙◌, subst, arith, if_elim, opt_elim, Bool-cases, inl, inr, some_inj,
}
use text.Mathlib.TextPositions.{eq_refl}
use tracing_bot.Prelude.Assoc.{Assoc, lookup, put, count_if}
use tracing_bot.Anomaly.Types.{Time, suppressed, expired, AnomalyEvent, Incident}
use tracing_bot.Anomaly.Grouper.{
  TenantIndex, GroupingConfig, Grouper, Deps, new_grouper, index_in, index_of, with_index, is_open,
  compute_fingerprint,
}
use tracing_bot.Anomaly.Incidents.{
  is_eligible, is_current, attach_event, save, same_fingerprint, find_target, lowest_open,
  count_open, enforce_max_open_incidents, fresh_incident, note_fingerprint, open_incident, add,
  suppress, tick,
}
use tracing_bot.Anomaly.Incidents.Open.{
  IsDistinct, put-IsDistinct, lookup-lowest_open, lowest_open-found, count_open-close,
  count_open-put_le, count_open-put_closed, count_open-put_same,
}
use tracing_bot.Anomaly.Incidents.Attach.{
  incidents_of, index_of-with_index, IsSame, IsSame-trans, IsSame-outside, attach_event-IsSame,
  attach_event-status,
}
use tracing_bot.Anomaly.Incidents.Calls.{
  GrouperCall, add_call, suppress_call, tick_call, regroup_all,
}

-- Every tenant's incidents are within the bound.
pub record IsBounded (bound : ℕ) (g : Grouper) : Type 0 where
  pub limit : g.cfg.max_open_incidents ≡ bound
  pub distinct : (tid : String) → IsDistinct (incidents_of tid g)
  pub open_le : (tid : String) → count_open (incidents_of tid g) ≤ bound

-- A tenant's incidents are replaced, and the bound holds of the new ones.
IsBounded-with_index :
    (bound : ℕ) (tid : String) (t : TenantIndex) (g : Grouper)
    → IsBounded bound g
    → IsDistinct t.incidents
    → count_open t.incidents ≤ bound
    → IsBounded bound (with_index tid t g)
IsBounded-with_index bound tid t g h d c = record {
  limit = h.limit;
  distinct = λ j.
      subst IsDistinct (sym (index_of-with_index tid j t g))
        (if_elim IsDistinct (str_eq tid j) (λ _. d) (λ _. h.distinct j));
  open_le = λ j.
      subst (λ m. count_open m ≤ bound) (sym (index_of-with_index tid j t g))
        (if_elim (λ m. count_open m ≤ bound) (str_eq tid j) (λ _. c) (λ _. h.open_le j));
}

IsBounded-IsSame : (bound : ℕ) (g h : Grouper) → IsSame g h → IsBounded bound g → IsBounded bound h
IsBounded-IsSame bound g h s b = record {
  limit = ap (λ (c : GroupingConfig). c.max_open_incidents) s.cfg ∙ b.limit;
  distinct = λ tid. subst IsDistinct (sym (s.same tid)) (b.distinct tid);
  open_le = λ tid. subst (λ m. count_open m ≤ bound) (sym (s.same tid)) (b.open_le tid);
}

-- Any write to a tenant's index that keeps its incidents.
IsBounded-note :
    (bound : ℕ) (tid fp id : String) (g : Grouper)
    → IsBounded bound g
    → IsBounded bound (note_fingerprint tid fp id g)
IsBounded-note bound tid fp id g h =
    IsBounded-with_index bound tid _ g h (h.distinct tid) (h.open_le tid)

IsBounded-save :
    (bound : ℕ) (tid key : String) (inc old : Incident) (g : Grouper)
    → IsBounded bound g
    → lookup key (incidents_of tid g) ≡ some old
    → inc.status ≡ old.status
    → IsBounded bound (save tid key inc g)
IsBounded-save bound tid key inc old g h e s =
    IsBounded-with_index bound tid _ g h (put-IsDistinct key inc _ (h.distinct tid))
      (omega (arith, count_open-put_same key inc old (incidents_of tid g) e s, h.open_le tid))

lookup-hit :
    (m : Assoc Incident) (id : String) (inc : Incident) (p : String × Incident)
    → lookup id m ≡ some inc
    → some (id, inc) ≡ some p
    → lookup p.0 m ≡ some p.1
lookup-hit m id inc p e q = subst (λ x. lookup x.0 m ≡ some x.1) (some_inj q) e

pub lookup-same_fingerprint :
    (e : AnomalyEvent) (ttl : ℕ) (fp : String) (t : TenantIndex) (p : String × Incident)
    → same_fingerprint e ttl fp t ≡ some p
    → lookup p.0 t.incidents ≡ some p.1
unfolding same_fingerprint
lookup-same_fingerprint e ttl fp t p =
    let P = λ (o : Option (String × Incident)). o ≡ some p → lookup p.0 t.incidents ≡ some p.1 in
    opt_elim P (lookup fp t.by_fingerprint) {n = none} (λ _ h. absurd (cc))
      (λ id _.
        opt_elim P (lookup id t.incidents) {n = none} (λ _ h. absurd (cc))
          (λ inc f.
            if_elim P (is_eligible e ttl t id inc) (λ _ q. lookup-hit t.incidents id inc p f q)
              (λ _ h. absurd (cc))))

pub lookup-find_target :
    (e : AnomalyEvent) (window : ℕ) (ids : List String) (m : Assoc Incident) (p : String × Incident)
    → find_target e window ids m ≡ some p
    → lookup p.0 m ≡ some p.1
unfolding find_target
lookup-find_target e window [] m p h = absurd (cc)
lookup-find_target e window (id ∷ ids) m p h =
    let P = λ (o : Option (String × Incident)). o ≡ some p → lookup p.0 m ≡ some p.1 in
    let rest = lookup-find_target e window ids m p in
    opt_elim P (lookup id m) (λ _. rest)
      (λ inc f. if_elim P (is_current e window inc) (λ _ q. lookup-hit m id inc p f q) (λ _. rest))
      h

-- All tenants are within the bound, and `tid` is over it by one at most.
record IsNearly (bound : ℕ) (tid : String) (g : Grouper) : Type 0 where
  limit : g.cfg.max_open_incidents ≡ bound
  distinct : (j : String) → IsDistinct (incidents_of j g)
  others : (j : String) → str_eq tid j ≡ false → count_open (incidents_of j g) ≤ bound
  nearly : count_open (incidents_of tid g) ≤ bound + 1

IsNearly-IsBounded :
    (bound : ℕ) (tid : String) (g : Grouper) → IsBounded bound g → IsNearly bound tid g
IsNearly-IsBounded bound tid g h = record {
  limit = h.limit;
  distinct = h.distinct;
  others = λ j _. h.open_le j;
  nearly = omega (arith, h.open_le tid);
}

pub incidents_of_self :
    (tid : String) (t : TenantIndex) (g : Grouper)
    → incidents_of tid (with_index tid t g) ≡ t.incidents
incidents_of_self tid t g = index_of-with_index tid tid t g ∙ simp eq_refl

IsNearly-with_index :
    (bound : ℕ) (tid : String) (t : TenantIndex) (g : Grouper)
    → IsNearly bound tid g
    → IsDistinct t.incidents
    → count_open t.incidents ≤ bound + 1
    → IsNearly bound tid (with_index tid t g)
IsNearly-with_index bound tid t g h d c = record {
  limit = h.limit;
  distinct = λ j.
      subst IsDistinct (sym (index_of-with_index tid j t g))
        (if_elim IsDistinct (str_eq tid j) (λ _. d) (λ _. h.distinct j));
  others = λ j ne.
      subst (λ m. count_open m ≤ bound) (sym (index_of-with_index tid j t g))
        (if_elim (λ m. count_open m ≤ bound) (str_eq tid j) (λ q. absurd (ground arith))
          (λ q. h.others j q));
  nearly = subst (λ m. count_open m ≤ bound + 1) (sym (incidents_of_self tid t g)) c;
}

-- What is nearly within the bound is within it once `tid` is.
IsBounded-IsNearly :
    (bound : ℕ) (tid : String) (g : Grouper)
    → IsNearly bound tid g
    → count_open (incidents_of tid g) ≤ bound
    → IsBounded bound g
IsBounded-IsNearly bound tid g h c = record {
  limit = h.limit;
  distinct = h.distinct;
  open_le = λ j. elim (Bool-cases (str_eq tid j)) [
    | inl q ↦ subst (λ x. count_open (incidents_of x g) ≤ bound) (ground (arith, eq_iff tid j)) c
    | inr q ↦ h.others j q
  ];
}

-- Closing the lowest open incident makes room for the one that came.
enforce-IsBounded :
    (bound : ℕ) (wall : Time) (tid : String) (g : Grouper)
    → IsNearly bound tid g
    → IsBounded bound (enforce_max_open_incidents wall tid g)
unfolding enforce_max_open_incidents
enforce-IsBounded bound wall tid g h =
    let m = incidents_of tid g in
    if_elim (IsBounded bound) (ltb g.cfg.max_open_incidents (count_open m))
      (λ q.
        let (p, f) = lowest_open-found m (ground arith) in
        opt_elim (IsBounded bound) (lowest_open none m) (λ n. absurd (cc)) (λ p' f'. closed p' f'))
      (λ q. IsBounded-IsNearly bound tid g h (ground (arith, h.limit)))
  where
    closed :
        (p : String × Incident)
        → lowest_open none (incidents_of tid g) ≡ some p
        → IsBounded bound (
            with_index tid
              (record (index_of tid g) {
                incidents = put p.0 (record p.1 { status = expired }) (incidents_of tid g);
                closed_at = put p.0 wall (index_of tid g).closed_at;
              })
              g)
    closed p f =
        let m = incidents_of tid g in
        let i = record p.1 { status = expired } in
        elim (lookup-lowest_open m none p (h.distinct tid) f) [
          | inr n ↦ absurd (cc)
          | inl (e, o) ↦
              let d = put-IsDistinct p.0 i m (h.distinct tid) in
              let less = count_open-close m p e o in
              IsBounded-IsNearly bound tid _
                (IsNearly-with_index bound tid _ g h d (omega (arith, h.nearly)))
                (subst (λ m. count_open m ≤ bound) (sym (incidents_of_self tid _ g))
                  (omega (arith, h.nearly)))
        ]

open_incident-IsBounded :
    (bound : ℕ) (d : Deps) (tid : String) (e : AnomalyEvent) (fp : String) (g : Grouper)
    → IsBounded bound g
    → IsBounded bound (open_incident d tid e fp g).1
unfolding open_incident
open_incident-IsBounded bound d tid e fp g h =
    let fresh = fresh_incident tid e (g.seq + 1) in
    let g0 = record g { seq = g.seq + 1 } in
    let g1 = (attach_event d tid e fresh g0).1 in
    let inc = record (attach_event d tid e fresh g0).0 { fingerprint = fp } in
    let b =
      IsBounded-IsSame bound g g1
        (IsSame-trans (IsSame-outside g g0 refl refl) (attach_event-IsSame d tid e fresh g0)) h in
    let m = incidents_of tid g1 in
    let one =
      IsNearly-with_index bound tid _ g1 (IsNearly-IsBounded bound tid g1 b)
        (put-IsDistinct inc.id inc m (b.distinct tid))
        (omega (arith, count_open-put_le inc.id inc m, b.open_le tid)) in
    enforce-IsBounded bound d.wall tid _
      (IsNearly-with_index bound tid _ _ one (one.distinct tid) one.nearly)

add-IsBounded :
    (bound : ℕ) (d : Deps) (tid : String) (e : AnomalyEvent) (g : Grouper)
    → IsBounded bound g
    → IsBounded bound (add d tid e g).1
unfolding add
add-IsBounded bound d tid e g h =
    let P = λ (x : (Incident × Bool) × Grouper). IsBounded bound x.1 in
    let m = incidents_of tid g in
    let attached = λ (inc : Incident).
      IsBounded-IsSame bound g (attach_event d tid e inc g).1 (attach_event-IsSame d tid e inc g)
        h in
    let stored = λ (inc : Incident) (k : String) (f : lookup k m ≡ some inc).
      subst (λ x. lookup k x ≡ some inc) (sym ((attach_event-IsSame d tid e inc g).same tid)) f in
    opt_elim P (same_fingerprint e g.cfg.dedupe_ttl (compute_fingerprint d tid e) (index_of tid g))
      (λ _.
        opt_elim P (find_target e g.cfg.window _ m)
          (λ _. open_incident-IsBounded bound d tid e (compute_fingerprint d tid e) g h)
          (λ p f. IsBounded-note bound tid _ _ _ (
            IsBounded-save bound tid p.0 _ p.1 _ (attached p.1)
              (stored p.1 p.0 (lookup-find_target e g.cfg.window _ m p f))
              (attach_event-status d tid e p.1 g))))
      (λ p f.
        IsBounded-save bound tid p.0 _ p.1 _ (attached p.1)
          (stored p.1 p.0 (lookup-same_fingerprint e g.cfg.dedupe_ttl _ (index_of tid g) p f))
          (attach_event-status d tid e p.1 g))

suppress-IsBounded :
    (bound : ℕ) (d : Deps) (tid id reason : String) (g : Grouper)
    → IsBounded bound g
    → IsBounded bound (suppress d tid id reason g).1
unfolding suppress is_open
suppress-IsBounded bound d tid id reason g h =
    let m = incidents_of tid g in
    let P = λ (x : Bool × Grouper). IsBounded bound x.1 in
    opt_elim P (lookup id m)
      (λ _. IsBounded-with_index bound tid (index_of tid g) g h (h.distinct tid) (h.open_le tid))
      (λ inc f.
        let i = record inc { status = suppressed; suppressed_by = reason } in
        IsBounded-with_index bound tid _ g h (put-IsDistinct id i m (h.distinct tid))
          (omega (arith, count_open-put_closed id i m refl, h.open_le tid)))

regroup_all-keeps :
    (bound : ℕ) (calls : List GrouperCall) (g : Grouper)
    → IsBounded bound g
    → IsBounded bound (regroup_all calls g)
unfolding regroup_all tick
regroup_all-keeps bound [] g h = h
regroup_all-keeps bound (add_call d tid e ∷ cs) g h =
    regroup_all-keeps bound cs (add d tid e g).1 (add-IsBounded bound d tid e g h)
regroup_all-keeps bound (suppress_call d tid id reason ∷ cs) g h =
    regroup_all-keeps bound cs (suppress d tid id reason g).1
      (suppress-IsBounded bound d tid id reason g h)
regroup_all-keeps bound (tick_call now ∷ cs) g h =
    regroup_all-keeps bound cs (tick now g)
      (IsBounded-IsSame bound g (tick now g) (IsSame-outside g (tick now g) refl refl) h)

-- Whatever calls a new grouper gets, no tenant has more open incidents than the configuration allows.
pub regroup_all-IsBounded :
    (cfg : GroupingConfig) (calls : List GrouperCall)
    → IsBounded cfg.max_open_incidents (regroup_all calls (new_grouper cfg))
unfolding index_in lookup count_if
regroup_all-IsBounded cfg calls =
    regroup_all-keeps cfg.max_open_incidents calls (new_grouper cfg)
      (record { limit = refl; distinct = λ tid. tt; open_le = λ tid. omega arith })
