-- ===== src/Anomaly/Incidents/Added.antt =====
-- What `Add` answers and what it writes.
use tracing_bot.Prelude.{
  ◌++◌, length-append, ℕ, zero, suc, ◌+◌, ◌≤◌, ◌<◌, String, Bool, false, Option, none, some, List,
  [], ◌∷◌, ltb, str_eq, eq_iff, if◌then◌else◌, length, ◌≡◌, refl, sym, ap, ◌∙◌, subst, arith,
  if_elim, opt_elim, Bool-cases, inl, inr, some_inj,
}
use tracing_bot.Prelude.Assoc.{Assoc, lookup, put, lookup-put, lookup-put_self}
use tracing_bot.Anomaly.Types.{Time, expired, AnomalyEvent, Incident}
use tracing_bot.Anomaly.Grouper.{
  TenantIndex, Grouper, Deps, index_of, with_index, compute_fingerprint,
}
use tracing_bot.Anomaly.Incidents.{
  drop_first, cap_events, gather, rate, attach_event, save, same_fingerprint, find_target,
  lowest_open, count_open, enforce_max_open_incidents, fresh_incident, note_fingerprint,
  open_incident, add,
}
use tracing_bot.Anomaly.Incidents.Open.{IsDistinct, put-IsDistinct, lookup-lowest_open}
use tracing_bot.Anomaly.Incidents.Attach.{
  incidents_of, index_of-with_index, IsSame-trans, IsSame-outside, attach_event-IsSame,
}
use tracing_bot.Anomaly.Incidents.Bound.{IsBounded, incidents_of_self}

-- The last item stays.
drop_first-keeps_last :
    (n : ℕ) (ids : List String) (x : String)
    → n ≤ length ids
    → (front : List String) × (drop_first n (ids ++ x ∷ []) ≡ front ++ x ∷ [])
unfolding drop_first
drop_first-keeps_last zero ids x h = (ids, refl)
drop_first-keeps_last (suc n) [] x h = absurd (omega arith)
drop_first-keeps_last (suc n) (y ∷ ids) x h = drop_first-keeps_last n ids x (omega arith)

-- The event is the last of the incident's.
abbrev pub EndsWith : List String → String → Type 0
EndsWith ids x = (front : List String) × (ids ≡ front ++ x ∷ [])

cap_events-EndsWith :
    (bound : ℕ) (ids : List String) (x : String)
    → 0 < bound
    → EndsWith (cap_events bound (ids ++ x ∷ [])) x
unfolding cap_events
cap_events-EndsWith bound ids x h =
    drop_first-keeps_last _ ids x (omega (arith, length-append ids (x ∷ [])))

attach_event-EndsWith :
    (d : Deps) (tid : String) (e : AnomalyEvent) (inc : Incident) (g : Grouper)
    → 0 < g.cfg.max_events_per_incident
    → EndsWith (attach_event d tid e inc g).0.event_ids e.id
unfolding attach_event rate gather
attach_event-EndsWith d tid e inc g h =
    cap_events-EndsWith g.cfg.max_events_per_incident inc.event_ids e.id h

-- What `Add` gives for an event of the tenant: the incident and the grouper.
pub record IsAdded (tid : String) (e : AnomalyEvent) (g : Grouper) (inc : Incident) (out : Grouper)
    : Type 0 where
  pub others : (j : String) → str_eq tid j ≡ false → incidents_of j out ≡ incidents_of j g
  pub stored : (k : String) × (lookup k (incidents_of tid out) ≡ some inc)
  pub holds : EndsWith inc.event_ids e.id

-- A write to the tenant's incidents that leaves this one under its key.
IsAdded-with_index :
    (tid : String) (e : AnomalyEvent) (g h : Grouper) (inc : Incident) (t : TenantIndex)
    (k : String)
    → ((j : String) → str_eq tid j ≡ false → incidents_of j h ≡ incidents_of j g)
    → lookup k t.incidents ≡ some inc
    → EndsWith inc.event_ids e.id
    → IsAdded tid e g inc (with_index tid t h)
IsAdded-with_index tid e g h inc t k s f ends = record {
  others = λ j ne.
      index_of-with_index tid j t h
      ∙ if_elim (λ (m : Assoc Incident). m ≡ incidents_of j g) (str_eq tid j)
          (λ q. absurd (ground arith)) (λ q. s j q);
  stored = (k, subst (λ m. lookup k m ≡ some inc) (sym (incidents_of_self tid t h)) f);
  holds = ends;
}

lookup-close :
    (m : Assoc Incident) (id : String) (inc : Incident) (p : String × Incident)
    → lookup id m ≡ some inc
    → lookup p.0 m ≡ some p.1
    → (i : Incident) × (lookup id (put p.0 (record p.1 { status = expired }) m) ≡ some i)
      × (i.event_ids ≡ inc.event_ids)
lookup-close m id inc p e f =
    let i = record p.1 { status = expired } in
    let law = lookup-put p.0 id i m in
    elim (Bool-cases (str_eq p.0 id)) [
      | inl q ↦
          let same : p.0 ≡ id = ground (arith, eq_iff p.0 id) in
          let held : p.1 ≡ inc = some_inj (sym f ∙ ap (λ x. lookup x m) same ∙ e) in
          (
            i,
            law ∙ ap (λ b. if b then some i else lookup id m) q,
            ap (λ (x : Incident). x.event_ids) held,
          )
      | inr q ↦ (inc, law ∙ ap (λ b. if b then some i else lookup id m) q ∙ e, refl)
    ]

IsAdded-note :
    (tid fp id : String) (e : AnomalyEvent) (g h : Grouper) (inc : Incident)
    → IsAdded tid e g inc h
    → IsAdded tid e g inc (note_fingerprint tid fp id h)
IsAdded-note tid fp id e g h inc a =
    IsAdded-with_index tid e g h inc _ a.stored.0 a.others a.stored.1 a.holds

abbrev stored_or : String → String → Incident → Grouper → Incident
stored_or tid id inc o = elim (lookup id (incidents_of tid o)) [ none ↦ inc | some i ↦ i ]

-- The incident is the one under its key.
IsAdded-stored :
    (tid id : String) (e : AnomalyEvent) (g o : Grouper) (inc i : Incident)
    → lookup id (incidents_of tid o) ≡ some i
    → IsAdded tid e g i o
    → IsAdded tid e g (stored_or tid id inc o) o
IsAdded-stored tid id e g o inc i f a =
    subst (λ (x : Option Incident). IsAdded tid e g (elim x [ none ↦ inc | some y ↦ y ]) o) (sym f)
      a

enforce-IsAdded :
    (wall : Time) (tid id : String) (e : AnomalyEvent) (g h : Grouper) (inc : Incident)
    → IsDistinct (incidents_of tid h)
    → lookup id (incidents_of tid h) ≡ some inc
    → IsAdded tid e g inc h
    → let o = enforce_max_open_incidents wall tid h in IsAdded tid e g (stored_or tid id inc o) o
unfolding enforce_max_open_incidents
enforce-IsAdded wall tid id e g h inc d f a =
    let P = λ (o : Grouper). IsAdded tid e g (stored_or tid id inc o) o in
    let m = incidents_of tid h in
    let still = IsAdded-stored tid id e g h inc inc f a in
    if_elim P (ltb h.cfg.max_open_incidents (count_open m))
      (λ _.
        opt_elim P (lowest_open none m) (λ _. still)
          (λ p l. elim (lookup-lowest_open m none p d l) [
            | inr n ↦ absurd (cc)
            | inl (at, _) ↦
                let (i, j, ev) = lookup-close m id inc p f at in
                let (front, q) = a.holds in
                IsAdded-stored tid id e g _ inc i
                  (subst (λ x. lookup id x ≡ some i) (sym (incidents_of_self tid _ h)) j)
                  (IsAdded-with_index tid e g h i _ id a.others j (front, ev ∙ q))
          ]))
      (λ _. still)

open_incident-IsAdded :
    (bound : ℕ) (d : Deps) (tid : String) (e : AnomalyEvent) (fp : String) (g : Grouper)
    → IsBounded bound g
    → 0 < g.cfg.max_events_per_incident
    → let out = open_incident d tid e fp g in IsAdded tid e g out.0 out.1
unfolding open_incident
open_incident-IsAdded bound d tid e fp g h pos =
    let fresh = fresh_incident tid e (g.seq + 1) in
    let g0 = record g { seq = g.seq + 1 } in
    let g1 = (attach_event d tid e fresh g0).1 in
    let inc = record (attach_event d tid e fresh g0).0 { fingerprint = fp } in
    let like =
      IsSame-trans (IsSame-outside g g0 refl refl) (attach_event-IsSame d tid e fresh g0) in
    let m = incidents_of tid g1 in
    let saved =
      IsAdded-with_index tid e g g1 inc _ inc.id (λ j _. like.same j) (lookup-put_self inc.id inc m)
        (attach_event-EndsWith d tid e fresh g0 pos) in
    let g2 = note_fingerprint tid fp inc.id (save tid inc.id inc g1) in
    let at : incidents_of tid g2 ≡ put inc.id inc m =
      incidents_of_self tid _ (save tid inc.id inc g1) ∙ incidents_of_self tid _ g1 in
    let distinct = subst IsDistinct (sym (like.same tid)) (h.distinct tid) in
    enforce-IsAdded d.wall tid inc.id e g g2 inc
      (subst IsDistinct (sym at) (put-IsDistinct inc.id inc m distinct))
      (ap (λ x. lookup inc.id x) at ∙ lookup-put_self inc.id inc m)
      (IsAdded-note tid fp inc.id e g (save tid inc.id inc g1) inc saved)

-- `Add` touches the incidents of no other tenant, returns an incident that is stored under a key of the
-- tenant, and the event is the last of the events of that incident, if incidents may have events at all.
pub add-IsAdded :
    (bound : ℕ) (d : Deps) (tid : String) (e : AnomalyEvent) (g : Grouper)
    → IsBounded bound g
    → 0 < g.cfg.max_events_per_incident
    → let out = add d tid e g in IsAdded tid e g out.0.0 out.1
unfolding add
add-IsAdded bound d tid e g h pos =
    let P = λ (x : (Incident × Bool) × Grouper). IsAdded tid e g x.0.0 x.1 in
    let m = incidents_of tid g in
    let same = λ (inc : Incident) (j : String) (ne : str_eq tid j ≡ false).
      (attach_event-IsSame d tid e inc g).same j in
    let ends = λ (inc : Incident). attach_event-EndsWith d tid e inc g pos in
    opt_elim P (same_fingerprint e g.cfg.dedupe_ttl (compute_fingerprint d tid e) (index_of tid g))
      (λ _.
        opt_elim P (find_target e g.cfg.window _ m)
          (λ _. open_incident-IsAdded bound d tid e (compute_fingerprint d tid e) g h pos)
          (λ p f.
            IsAdded-note tid _ _ e g _ _ (
              IsAdded-with_index tid e g _ _ _ p.0 (same p.1) (lookup-put_self p.0 _ _)
                (ends p.1))))
      (λ p f. IsAdded-with_index tid e g _ _ _ p.0 (same p.1) (lookup-put_self p.0 _ _) (ends p.1))
