-- ===== src/Rca/Replay/Faithful.antt =====
-- What an investigation leaves in the journal and in the store, and the replay of it.
use tracing_bot.Prelude.{
  ℕ, suc, String, Bool, true, false, Option, none, some, List, [], ◌∷◌, ◌≡◌, refl, arith, All, map,
  subst, inl, inr, ap, eq_iff,
}
use tracing_bot.Prelude.Assoc.{lookup}
use tracing_bot.Rca.Types.{
  contextualize, hypothesize, recorded, no_spend, Step, Investigation, Incident, ok,
}
use tracing_bot.Rca.Journal.{Journal, ObjectPutter}
use tracing_bot.Rca.Journal.Laws.{KeepsSteps, KeepsBodies}
use tracing_bot.Rca.Engine.{Deps, Loop, pure_step}
use tracing_bot.Rca.Engine.Evidence.{Numbered, IsKeyed, IsBacked}
use tracing_bot.Rca.Engine.Trail.{IsTraced, loop-IsTraced}
use tracing_bot.Rca.Investigate.{
  with_first, Engine, Setup, Outcome, new_investigation, conclude_with, first_loop, finish,
  investigate, get,
}
use tracing_bot.Rca.Investigate.Complete.{investigate-eq_ok, investigate-IsComplete}
use tracing_bot.Rca.Replay.{
  ReplaySetup, verify_evidence, replayed, replay_steps, replay_of_recorded, replay_recorded, replay,
}

-- A step without its ids and times.
abbrev pub erase : Step → Step
erase st = replayed "" "" st

-- The ends of a run leave what the loop recorded.
module _ {J O : Type 0} (jn : Journal J) (on : ObjectPutter O) (d : Deps) (tid : String) where
  module _ (keeps : KeepsSteps jn) where
    with_first-IsTraced :
        (l : Loop J O) (j : J) (id : String) (kept : Bool) (st : Step) (inv : Investigation)
        → jn.steps j tid id ≡ some []
        → st.seq ≡ 0
        → st.tool_result_ref ≡ ""
        → inv.id ≡ id
        → inv.tenant ≡ tid
        → inv.steps ≡ []
        → kept ≡ (jn.append_step j tid id st).1
        → l.inv ≡ with_first kept st inv
        → l.journal ≡ (jn.append_step j tid id st).0
        → IsTraced jn on d tid id l
    with_first-IsTraced l j id true st inv a b c e o f g h i = record {
      same = ground arith;
      owner = ground arith;
      journal = rw (i, h) (keeps.append-steps j tid id st [] a).1;
      numbered = rw h (b, tt);
      backed = rw h (inl c, tt);
    }
    with_first-IsTraced l j id false st inv a b c e o f g h i =
        absurd (ground (arith, (keeps.append-steps j tid id st [] a).0))

    -- The journal has the steps of an investigation of a fresh id, numbered from 0, and each step with
    -- a result has its body in the store, with the hash that the step records.
    pub investigate-IsTraced :
        KeepsBodies on
        → IsKeyed d
        → (s : Setup) (incident : Incident) (e : Engine J O) (out : Outcome J O)
        → keeps.Fresh e.journal s.id
        → investigate jn on d s tid incident e ≡ some (ok out)
        → (out.inv.id ≡ s.id)
          × (jn.steps out.engine.journal tid s.id ≡ some out.inv.steps)
          × Numbered 0 out.inv.steps
          × All (IsBacked on d tid s.id out.engine.objects) out.inv.steps
          × (out.inv.tenant ≡ tid)
    unfolding first_loop finish conclude_with
    investigate-IsTraced bodies keyed s incident e out fresh h =
        let (l, k, eq, _) = investigate-eq_ok jn on d s tid incident e out h in
        let inv = new_investigation d s tid incident in
        let j = (jn.create e.journal tid inv).0 in
        let first =
          with_first-IsTraced (first_loop jn on d s tid incident e j) j s.id _
            (pure_step s.first_step_id 0 contextualize s.first_step_at)
            (record inv { phase = hypothesize }) (keeps.create-steps e.journal tid inv fresh refl).1
            refl refl refl refl refl refl refl refl in
        let end = conclude_with s incident l in
        let t =
          loop-IsTraced jn on d tid s.id keeps bodies keyed incident 26 s.rounds _ l first k in
        rw eq (
          t.same,
          subst
              (λ (i : String).
                jn.steps (jn.set_status l.journal tid l.inv.id end.status end.ended_at).0 tid i
                ≡ some l.inv.steps)
              t.same
              (keeps.set_status-steps l.journal tid l.inv.id end.status end.ended_at l.inv.steps
                (rw t.same t.journal)),
          t.numbered,
          t.backed,
          t.owner,
        )

module _ {O : Type 0} (on : ObjectPutter O) (d : Deps) (tid id : String) where
  verify_evidence-IsBacked :
      (objs : Option O) (st : Step)
      → IsBacked on d tid id objs st
      → verify_evidence on d objs tid st ≡ none
  unfolding verify_evidence
  verify_evidence-IsBacked none st (inl h) = rw h
  verify_evidence-IsBacked none st (inr (e, (b, g, s))) = absurd (cc)
  verify_evidence-IsBacked (some o) st (inl h) = rw h
  verify_evidence-IsBacked (some o) st (inr (e, (b, g, s))) =
      ground (arith, eq_iff (d.sha256_hex b) st.tool_result_hash)

  -- Over backed steps, the replay has the same steps but for ids and times.
  replay_steps-IsBacked :
      (objs : Option O) (ids : ℕ → String) (inv_id : String) (ss : List Step)
      → All (IsBacked on d tid id objs) ss
      → (ss' : List Step) × (replay_steps on d objs tid ids inv_id ss ≡ ok ss')
        × (map erase ss' ≡ map erase ss)
        × All (λ st. st.investigation_id ≡ inv_id) ss'
  unfolding replay_steps
  replay_steps-IsBacked objs ids inv_id [] h = ([], refl, refl, tt)
  replay_steps-IsBacked objs ids inv_id (st ∷ ss) (a, h) =
      let (rest, e, m, n) = replay_steps-IsBacked objs (λ i. ids (suc i)) inv_id ss h in
      (
        replayed (ids 0) inv_id st ∷ rest,
        ground (arith, verify_evidence-IsBacked objs st a, e),
        ap (λ (xs : List Step). erase st ∷ xs) m,
        (refl, n),
      )

module _ {J O : Type 0} (jn : Journal J) (on : ObjectPutter O) (d : Deps) where
  -- With a journal and a store that keep what they are given, keys that tell the steps apart and a
  -- fresh id, the recorded replay of what Investigate returned succeeds, and gives the same steps but
  -- for ids and times, as a replay of the investigation with its conclusion and no spend.
  pub replay-investigate :
      (keeps : KeepsSteps jn) (bodies : KeepsBodies on) (keyed : IsKeyed d) (s : Setup)
      (r : ReplaySetup) (tid : String) (incident : Incident) (e : Engine J O) (out : Outcome J O)
      → keeps.Fresh e.journal s.id
      → investigate jn on d s tid incident e ≡ some (ok out)
      → (inv : Investigation) × ((replay jn on d r tid out.engine s.id recorded).1 ≡ ok inv)
        × (map erase inv.steps ≡ map erase out.inv.steps)
        × All (λ st. st.investigation_id ≡ r.id) inv.steps
        × (inv.replay_of ≡ s.id)
        × (inv.root_cause ≡ out.inv.root_cause)
        × (inv.status ≡ out.inv.status)
        × (inv.spend ≡ no_spend)
  unfolding replay get replay_recorded
  replay-investigate keeps bodies keyed s r tid incident e out fresh h =
      let (same, steps, _, backed, owner) =
        investigate-IsTraced jn on d tid keeps bodies keyed s incident e out fresh h in
      let (ss, a, b, c) =
        replay_steps-IsBacked on d tid s.id out.engine.objects r.step_id r.id out.inv.steps
          backed in
      let kept : lookup s.id out.engine.invs ≡ some out.inv =
        rw (← same) (investigate-IsComplete jn on d s tid incident e out h).kept in
      let mine = (eq_iff out.inv.tenant tid).1 owner in
      (
        replay_of_recorded r out.inv ss,
        ground (arith, kept, steps, a, mine),
        b,
        c,
        same,
        refl,
        refl,
        refl,
      )
