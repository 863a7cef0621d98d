-- ===== src/Anomaly/Incidents/Attach.antt =====
-- Attaching an event writes to no tenant's incidents, and to no status.
use tracing_bot.Prelude.{
  String, List, [], ltb, str_eq, eq_iff, if◌then◌else◌, ◌≡◌, refl, ap, ◌∙◌, arith, if_elim,
  opt_elim,
}
use tracing_bot.Prelude.Assoc.{Assoc, lookup, lookup-put}
use tracing_bot.Anomaly.Types.{AnomalyEvent, Incident}
use tracing_bot.Anomaly.Grouper.{
  TenantIndex, Grouper, Deps, index_in, index_of, with_index, contains, neighbors_of,
  register_service,
}
use tracing_bot.Anomaly.Incidents.{gather, rate, attach_event}

abbrev pub incidents_of : String → Grouper → Assoc Incident
incidents_of tid g = (index_of tid g).incidents

pub index_of-with_index :
    (tid j : String) (t : TenantIndex) (g : Grouper)
    → incidents_of j (with_index tid t g) ≡ (if str_eq tid j then t.incidents else incidents_of j g)
unfolding index_in
index_of-with_index tid j t g = ground (arith, lookup-put tid j t g.tenants)

-- What attaching an event leaves as it was.
pub record IsSame (g h : Grouper) : Type 0 where
  pub cfg : h.cfg ≡ g.cfg
  pub same : (tid : String) → incidents_of tid h ≡ incidents_of tid g

pub IsSame-trans : {g h k : Grouper} → IsSame g h → IsSame h k → IsSame g k
IsSame-trans a b = record { cfg = b.cfg ∙ a.cfg; same = λ tid. b.same tid ∙ a.same tid }

-- A write outside the tenants' maps.
pub IsSame-outside : (g h : Grouper) → h.cfg ≡ g.cfg → h.tenants ≡ g.tenants → IsSame g h
IsSame-outside g h c t = record {
  cfg = c;
  same = λ tid. ap (λ (m : Assoc TenantIndex). (index_in tid m).incidents) t;
}

pub neighbors_of-IsSame :
    (d : Deps) (tid service : String) (g : Grouper) → IsSame g (neighbors_of d tid service g).1
unfolding neighbors_of
neighbors_of-IsSame d tid service g =
    let still = IsSame-outside g g refl refl in
    let P = λ (x : List String × Grouper). IsSame g x.1 in
    let asked =
      opt_elim P d.topo {n = ([], g)} (λ _. still)
        (λ topo _.
          opt_elim P (topo tid service g.cfg.topology_hops) {n = ([], g)} (λ _. still)
            (λ ns _. IsSame-outside g _ refl refl)) in
    opt_elim P (lookup _ g.neighbor_cache) (λ _. asked)
      (λ c _. if_elim P (ltb d.wall c.expires_at) (λ _. still) (λ _. asked))

pub register_service-IsSame :
    (d : Deps) (tid id service : String) (g : Grouper)
    → IsSame g (register_service d tid id service g)
unfolding register_service
register_service-IsSame d tid id service g =
    let near = neighbors_of-IsSame d tid service g in
    IsSame-trans near (record {
      cfg = refl;
      same = λ j.
          index_of-with_index tid j _ (neighbors_of d tid service g).1
          ∙ if_elim (λ (m : Assoc Incident). m ≡ incidents_of j (neighbors_of d tid service g).1)
              (str_eq tid j)
              (λ q.
                ap (λ x. incidents_of x (neighbors_of d tid service g).1)
                  (ground (arith, eq_iff tid j)))
              (λ _. refl);
    })

pub attach_event-IsSame :
    (d : Deps) (tid : String) (e : AnomalyEvent) (inc : Incident) (g : Grouper)
    → IsSame g (attach_event d tid e inc g).1
unfolding attach_event
attach_event-IsSame d tid e inc g =
    let a =
      if contains inc.services e.service then g else register_service d tid inc.id e.service g in
    let start =
      if_elim (IsSame g) (contains inc.services e.service)
        {y = register_service d tid inc.id e.service g} (λ _. IsSame-outside g g refl refl)
        (λ _. register_service-IsSame d tid inc.id e.service g) in
    IsSame-trans start (IsSame-trans (IsSame-outside a _ refl refl) (neighbors_of-IsSame d tid _ _))

pub attach_event-status :
    (d : Deps) (tid : String) (e : AnomalyEvent) (inc : Incident) (g : Grouper)
    → (attach_event d tid e inc g).0.status ≡ inc.status
unfolding attach_event rate gather
attach_event-status d tid e inc g = refl
