-- ===== src/Rca/Engine/Rounds.antt =====
-- What one round of the loop can come to, and the rule for what every run of the loop keeps.
use tracing_bot.Prelude.{
  ℕ, zero, suc, String, Bool, true, false, Option, none, some, ◌≡◌, refl, subst, inl, inr,
  Bool-cases,
}
use tracing_bot.Rca.Types.{
  TerminationReason, term_concluded, term_failed, Incident, ToolArgs, Proposal, Error, Result, ok,
  err, is_fallback_trigger,
}
use tracing_bot.Rca.Tools.{validate_tool_args}
use tracing_bot.Rca.Journal.{Journal, ObjectPutter}
use tracing_bot.Rca.Engine.{
  after_check, on_proposal, after_reply, after_tests, Deps, Round, Loop, Next, again, stop, is_llm,
  is_no_more_rules, terminate, budget_stop, input_of, clear_pending, swap_reasoner, on_error,
  take_proposal, reason_only, refuse_call, run_call, on_proposal, round, investigate_loop,
}

module _ {J O : Type 0} (jn : Journal J) (on : ObjectPutter O) (d : Deps) where
  abbrev pub fail_with : Error → Loop J O → Loop J O
  fail_with e l = record l {
    inv = record l.inv { termination_reason = some term_failed; error = d.describe e };
  }

  pub data Turn (tid : String) (r : Round) (l : Loop J O) (n : Next J O) : Type 0 where
    out_of_budget :
        (reason : TerminationReason)
        → budget_stop d r l ≡ some reason
        → n ≡ stop (terminate reason l)
        → Turn tid r l n
    gives_up : n ≡ stop (terminate term_concluded (clear_pending l)) → Turn tid r l n
    fails : (e : Error) → n ≡ stop (fail_with e (clear_pending l)) → Turn tid r l n
    swaps :
        (e : Error)
        → is_llm (d.kind l.reasoner) ≡ true
        → d.has_fallback ≡ true
        → n ≡ again (swap_reasoner d r e (clear_pending l))
        → Turn tid r l n
    concludes :
        (p : Proposal)
        → n ≡ stop (terminate term_concluded (take_proposal p (clear_pending l)))
        → Turn tid r l n
    reasons :
        (p : Proposal)
        → budget_stop d r l ≡ none
        → n ≡ again (reason_only jn on d tid r p (take_proposal p (clear_pending l)))
        → Turn tid r l n
    refuses :
        (p : Proposal) (c : ToolArgs)
        → budget_stop d r l ≡ none
        → n ≡ again (refuse_call jn on d tid r p c (take_proposal p (clear_pending l)))
        → Turn tid r l n
    runs :
        (p : Proposal) (c : ToolArgs)
        → budget_stop d r l ≡ none
        → c.tenant_id ≡ tid
        → validate_tool_args c ≡ none
        → n ≡ again (run_call jn on d tid r p c (take_proposal p (clear_pending l)))
        → Turn tid r l n

  module _ (tid : String) (r : Round) (l : Loop J O) where
    on_error-Turn : (e : Error) → Turn tid r l (on_error d r e (clear_pending l))
    unfolding on_error
    on_error-Turn e = elim (Bool-cases (is_no_more_rules e)) [
      | inl h ↦ gives_up (rw h)
      | inr h ↦ elim (Bool-cases (is_llm (d.kind l.reasoner))) [
        | inr k ↦ fails e (rw h (rw k))
        | inl k ↦ elim (Bool-cases d.has_fallback) [
          | inr f ↦ fails e (rw h (rw k (rw f)))
          | inl f ↦ elim (Bool-cases (is_fallback_trigger e)) [
            | inl t ↦ swaps e k f (rw h (rw k (rw f (rw t))))
            | inr t ↦ fails e (rw h (rw k (rw f (rw t))))
          ]
        ]
      ]
    ]

    after_check-Turn :
        (p : Proposal) (c : ToolArgs) (v : Option Error)
        → budget_stop d r l ≡ none
        → c.tenant_id ≡ tid
        → validate_tool_args c ≡ v
        → Turn tid r l (after_check jn on d tid r p c (take_proposal p (clear_pending l)) v)
    after_check-Turn p c none b t v = runs p c b t v refl
    after_check-Turn p c (some e) b t v = refuses p c b refl

    on_proposal-Turn :
        (p : Proposal) (done : Bool) (call : Option ToolArgs)
        → budget_stop d r l ≡ none
        → Turn tid r l (on_proposal jn on d tid r p (take_proposal p (clear_pending l)) done call)
    on_proposal-Turn p true call b = concludes p refl
    on_proposal-Turn p false none b = reasons p b refl
    on_proposal-Turn p false (some call) b =
        let c = record call { tenant_id = tid } in
        after_check-Turn p c (validate_tool_args c) b refl refl

    after_reply-Turn :
        (x : Result Proposal)
        → budget_stop d r l ≡ none
        → Turn tid r l (after_reply jn on d tid r (clear_pending l) x)
    after_reply-Turn (err e) b = on_error-Turn e
    after_reply-Turn (ok p) b = on_proposal-Turn p p.done p.call b

    after_tests-Turn :
        (incident : Incident) (t : Option TerminationReason)
        → budget_stop d r l ≡ t
        → Turn tid r l (after_tests jn on d tid incident r l t)
    after_tests-Turn incident (some reason) b = out_of_budget reason b refl
    after_tests-Turn incident none b =
        after_reply-Turn (r.next_step l.reasoner (input_of incident l)) b

    pub round-Turn : (incident : Incident) → Turn tid r l (round jn on d tid incident r l)
    unfolding round
    round-Turn incident = after_tests-Turn incident (budget_stop d r l) refl

  -- What every round keeps holds where the loop stops.
  module _ {ℓ κ} (P : Loop J O → Type ℓ) (Q : Loop J O → Type κ) (tid : String) where
    abbrev pub Keeps : Type (ℓ ⊔ κ)
    Keeps =
        ((r : Round) (l l' : Loop J O) → P l → Turn tid r l (again l') → P l')
        × ((r : Round) (l l' : Loop J O) → P l → Turn tid r l (stop l') → Q l')

    loop_rule_next :
        (incident : Incident) (n : ℕ) (rs : ℕ → Round) (l : Loop J O) (x : Next J O) (l' : Loop J O)
        → Keeps
        → P l
        → ((k : Loop J O)
            → P k
            → investigate_loop jn on d tid incident n (λ i. rs (suc i)) k ≡ some l'
            → Q l')
        → Turn tid (rs 0) l x
        → elim x as (λ _. Option (Loop J O)) [
          | stop k ↦ some k
          | again k ↦ investigate_loop jn on d tid incident n (λ i. rs (suc i)) k
        ]
          ≡ some l'
        → Q l'
    loop_rule_next incident n rs l (stop k) l' (keep, last) p rec t h =
        subst Q (cc) (last (rs 0) l k p t)
    loop_rule_next incident n rs l (again k) l' (keep, last) p rec t h =
        rec k (keep (rs 0) l k p t) h

    pub loop_rule :
        (incident : Incident) (n : ℕ) (rs : ℕ → Round) (l l' : Loop J O)
        → Keeps
        → P l
        → investigate_loop jn on d tid incident n rs l ≡ some l'
        → Q l'
    unfolding investigate_loop
    loop_rule incident zero rs l l' k p h = absurd (cc)
    loop_rule incident (suc n) rs l l' k p h =
        loop_rule_next incident n rs l (round jn on d tid incident (rs 0) l) l' k p
          (λ x q e. loop_rule incident n (λ i. rs (suc i)) x l' k q e)
          (round-Turn tid (rs 0) l incident) h
