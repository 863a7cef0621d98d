-- ===== src/Rca/Engine/Trail.antt =====
-- The journal and the store along a run of the loop: the journal has the recorded steps, they are numbered,
-- and the bodies that they refer to are in the store.
use tracing_bot.Prelude.{
  ℕ, ◌<◌, String, true, Option, some, List, [], ◌∷◌, ◌++◌, ◌≡◌, refl, arith, All, All-append,
  All-imp, subst, sym, ◌∙◌, length, inl,
}
use tracing_bot.Prelude.Bytes.{Bytes}
use native.Mathlib.Nat.{zero-add}
use tracing_bot.Rca.Types.{term_concluded, Step, Incident, ToolArgs, Proposal}
use tracing_bot.Rca.Journal.{Journal, ObjectPutter}
use tracing_bot.Rca.Journal.Laws.{KeepsSteps, KeepsBodies}
use tracing_bot.Rca.Engine.{
  ran_step, Deps, Round, Loop, again, stop, terminate, clear_pending, swap_reasoner, take_proposal,
  put_reasoner_output, reason_only, refuse_call, put_evidence, run_call, investigate_loop,
}
use tracing_bot.Rca.Engine.Rounds.{
  fail_with, Turn, out_of_budget, gives_up, fails, swaps, concludes, reasons, refuses, runs,
  loop_rule,
}
use tracing_bot.Rca.Engine.Evidence.{
  Numbered, Numbered-snoc, Numbered-lt, IsKeyed, IsBacked, put_reasoner_output-IsBacked,
  put_evidence-IsBacked, put_evidence-own,
}

take_proposal-trail :
    {J O : Type 0} (p : Proposal) (l : Loop J O)
    → ((take_proposal p l).inv.id ≡ l.inv.id)
      × ((take_proposal p l).inv.tenant ≡ l.inv.tenant)
      × ((take_proposal p l).inv.steps ≡ l.inv.steps)
      × ((take_proposal p l).journal ≡ l.journal)
      × ((take_proposal p l).objects ≡ l.objects)
unfolding take_proposal
take_proposal-trail p l = ground arith

module _ {J O : Type 0} (jn : Journal J) (on : ObjectPutter O) (d : Deps) (tid id : String) where
  pub record IsTraced (l : Loop J O) : Type 0 where
    pub same : l.inv.id ≡ id
    pub owner : l.inv.tenant ≡ tid
    pub journal : jn.steps l.journal tid id ≡ some l.inv.steps
    pub numbered : Numbered 0 l.inv.steps
    pub backed : All (IsBacked on d tid id l.objects) l.inv.steps

  carry :
      (l k : Loop J O)
      → (k.inv.id ≡ l.inv.id)
      → k.inv.tenant ≡ l.inv.tenant
      → k.inv.steps ≡ l.inv.steps
      → k.journal ≡ l.journal
      → k.objects ≡ l.objects
      → IsTraced l
      → IsTraced k
  carry l k a o b c e t = record {
    same = a ∙ t.same;
    owner = o ∙ t.owner;
    journal = rw (b, c) t.journal;
    numbered = rw b t.numbered;
    backed = rw (b, e) t.backed;
  }

  module _ (keeps : KeepsSteps jn) (bodies : KeepsBodies on) (keyed : IsKeyed d) where
    -- One more step, given to the journal, with a store that keeps the earlier ones backed.
    extend :
        (k l : Loop J O) (st : Step)
        → IsTraced k
        → l.inv.id ≡ k.inv.id
        → l.inv.tenant ≡ k.inv.tenant
        → l.inv.steps ≡ k.inv.steps ++ st ∷ []
        → l.journal ≡ (jn.append_step k.journal tid k.inv.id st).0
        → st.seq ≡ length k.inv.steps
        → All (IsBacked on d tid id l.objects) k.inv.steps
        → IsBacked on d tid id l.objects st
        → IsTraced l
    extend k l st t a o b c e f g = record {
      same = a ∙ t.same;
      owner = o ∙ t.owner;
      journal = rw (b, c, t.same) (keeps.append-steps k.journal tid id st k.inv.steps t.journal).1;
      numbered = rw b (Numbered-snoc 0 k.inv.steps st t.numbered (omega (arith, e)));
      backed = rw b (All-append (IsBacked on d tid id l.objects) _ _ f (g, tt));
    }

    module _ (k : Loop J O) (t : IsTraced k) (r : Round) (p : Proposal) where
      kept_true : (st : Step) → (jn.append_step k.journal tid k.inv.id st).1 ≡ true
      kept_true st = rw t.same (keeps.append-steps k.journal tid id st k.inv.steps t.journal).0

      outputs :
          (objs : Option O) (seq : ℕ) (ss : List Step)
          → All (IsBacked on d tid id objs) ss
          → All (IsBacked on d tid id (put_reasoner_output jn on d objs tid k.inv.id seq p).0) ss
      outputs objs seq ss h =
          All-imp _ _ ss
            (λ st b.
              rw t.same (put_reasoner_output-IsBacked on d tid id jn bodies keyed objs seq p st b))
            h

      reason_only-IsTraced : IsTraced (reason_only jn on d tid r p k)
      unfolding reason_only
      reason_only-IsTraced =
          extend k (reason_only jn on d tid r p k) _ t refl refl (rw (kept_true _) refl) refl refl
            (outputs k.objects (length k.inv.steps) k.inv.steps t.backed) (inl refl)

      refuse_call-IsTraced : (c : ToolArgs) → IsTraced (refuse_call jn on d tid r p c k)
      unfolding refuse_call
      refuse_call-IsTraced c =
          extend k (refuse_call jn on d tid r p c k) _ t refl refl refl refl refl t.backed
            (inl refl)

      evidences :
          (seq : ℕ) (rows : Bytes) (objs : Option O) (ss : List Step)
          → All (λ st. st.seq < seq) ss
          → All (IsBacked on d tid id objs) ss
          → All (IsBacked on d tid id (put_evidence jn on d objs tid id seq rows).0) ss
      evidences seq rows objs [] lt h = tt
      evidences seq rows objs (st ∷ ss) lt h = (
        put_evidence-IsBacked on d tid id jn bodies keyed objs seq rows st lt.0 h.0,
        evidences seq rows objs ss lt.1 h.1,
      )

      -- The step of a result, under the id of the investigation.
      own :
          (i : String) (objs : Option O) (seq : ℕ) (rows : Bytes) (st : Step)
          → i ≡ id
          → st.seq ≡ seq
          → st.tool_result_hash ≡ (put_evidence jn on d objs tid i seq rows).1
          → st.tool_result_ref ≡ (put_evidence jn on d objs tid i seq rows).2
          → IsBacked on d tid id
              (put_reasoner_output jn on d
                (put_evidence jn on d objs tid i seq rows).0
                tid
                i
                seq
                p).0
              st
      own i objs seq rows st e n h f =
          subst
            (λ (j : String).
              st.tool_result_hash ≡ (put_evidence jn on d objs tid j seq rows).1
              → st.tool_result_ref ≡ (put_evidence jn on d objs tid j seq rows).2
              → IsBacked on d tid id
                  (put_reasoner_output jn on d (put_evidence jn on d objs tid j seq rows).0 tid j
                    seq p).0
                  st)
            (sym e)
            (λ h' f'.
              put_reasoner_output-IsBacked on d tid id jn bodies keyed _ seq p st
                (put_evidence-own on d tid id jn bodies keyed objs seq rows st n h' f'))
            h f

      run_call-IsTraced : (c : ToolArgs) → IsTraced (run_call jn on d tid r p c k)
      unfolding run_call
      run_call-IsTraced c =
          let seq = length k.inv.steps in
          let rows = (r.dispatch tid c).0.rows in
          extend k (run_call jn on d tid r p c k) (ran_step jn on d tid r p c k) t refl refl refl
            refl refl
            (outputs _ seq k.inv.steps (
              subst
                (λ (i : String).
                  All (IsBacked on d tid id (put_evidence jn on d k.objects tid i seq rows).0)
                    k.inv.steps)
                (sym t.same)
                (evidences seq rows k.objects k.inv.steps
                  (subst (λ (n : ℕ). All (λ st. st.seq < n) k.inv.steps) (zero-add seq)
                    (Numbered-lt 0 k.inv.steps t.numbered))
                  t.backed)))
            (own k.inv.id k.objects seq rows (ran_step jn on d tid r p c k) t.same refl refl refl)

    module _ (r : Round) (l l' : Loop J O) (t : IsTraced l) where
      cleared : IsTraced (clear_pending l)
      cleared = carry l (clear_pending l) refl refl refl refl refl t

      proposed : (p : Proposal) → IsTraced (take_proposal p (clear_pending l))
      proposed p =
          let (a, o, b, c, e) = take_proposal-trail p (clear_pending l) in
          carry (clear_pending l) (take_proposal p (clear_pending l)) a o b c e cleared

      Turn-IsTraced : Turn jn on d tid r l (again l') → IsTraced l'
      unfolding swap_reasoner
      Turn-IsTraced (out_of_budget reason b e) = absurd (cc)
      Turn-IsTraced (gives_up e) = absurd (cc)
      Turn-IsTraced (fails x e) = absurd (cc)
      Turn-IsTraced (concludes p e) = absurd (cc)
      Turn-IsTraced (swaps x k g e) = subst IsTraced (cc) (
          carry (clear_pending l) (swap_reasoner d r x (clear_pending l)) refl refl refl refl refl
            cleared)
      Turn-IsTraced (reasons p b e) = subst IsTraced (cc) (reason_only-IsTraced _ (proposed p) r p)
      Turn-IsTraced (refuses p c b e) =
          subst IsTraced (cc) (refuse_call-IsTraced _ (proposed p) r p c)
      Turn-IsTraced (runs p c b v w e) =
          subst IsTraced (cc) (run_call-IsTraced _ (proposed p) r p c)

      Turn-IsTraced_stop : Turn jn on d tid r l (stop l') → IsTraced l'
      Turn-IsTraced_stop (out_of_budget reason b e) =
          subst IsTraced (cc) (carry l (terminate reason l) refl refl refl refl refl t)
      Turn-IsTraced_stop (gives_up e) =
          subst IsTraced (cc)
            (carry l (terminate term_concluded (clear_pending l)) refl refl refl refl refl t)
      Turn-IsTraced_stop (fails x e) =
          subst IsTraced (cc)
            (carry l (fail_with jn on d x (clear_pending l)) refl refl refl refl refl t)
      Turn-IsTraced_stop (concludes p e) =
          let k = take_proposal p (clear_pending l) in
          subst IsTraced (cc)
            (carry k (terminate term_concluded k) refl refl refl refl refl (proposed p))
      Turn-IsTraced_stop (swaps x k g e) = absurd (cc)
      Turn-IsTraced_stop (reasons p b e) = absurd (cc)
      Turn-IsTraced_stop (refuses p c b e) = absurd (cc)
      Turn-IsTraced_stop (runs p c b v w e) = absurd (cc)

    pub loop-IsTraced :
        (incident : Incident) (n : ℕ) (rs : ℕ → Round) (l l' : Loop J O)
        → IsTraced l
        → investigate_loop jn on d tid incident n rs l ≡ some l'
        → IsTraced l'
    loop-IsTraced incident n rs l l' w h =
        loop_rule jn on d IsTraced IsTraced tid incident n rs l l'
          (λ r k k' t u. Turn-IsTraced r k k' t u, λ r k k' t u. Turn-IsTraced_stop r k k' t u) w h
