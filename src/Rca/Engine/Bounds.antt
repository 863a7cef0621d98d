-- ===== src/Rca/Engine/Bounds.antt =====
-- What a run of the loop spends, records and sends.
use tracing_bot.Prelude.{
  ℕ, ◌+◌, ◌<◌, ◌≤◌, String, Bool, true, false, none, some, List, [], ◌∷◌, ◌++◌, ◌≡◌, ◌≢◌, refl,
  subst, if◌then◌else◌, ◌∙◌, arith, length, length-append, All,
}
use tracing_bot.Rca.Types.{
  TerminationReason, term_concluded, term_tool_calls, term_failed, Budget, Incident, ToolArgs,
  Proposal, Error,
}
use tracing_bot.Rca.Tools.{validate_tool_args}
use tracing_bot.Rca.Journal.{Journal, ObjectPutter}
use tracing_bot.Rca.Engine.{
  Deps, Round, Loop, again, stop, terminate, budget_stop, clear_pending, swap_reasoner,
  take_proposal, reason_only, refuse_call, run_call, investigate_loop,
}
use tracing_bot.Rca.Engine.Rounds.{
  fail_with, Turn, out_of_budget, gives_up, fails, swaps, concludes, reasons, refuses, runs,
  loop_rule,
}
use tracing_bot.Rca.Engine.Returns.{steps-lt, take_proposal-counts}

-- A call that the registry may be given for the tenant.
abbrev pub IsSendable : String → ToolArgs → Type 0
IsSendable tid c = (c.tenant_id ≡ tid) × (validate_tool_args c ≡ none)

-- Within the limit of steps; each call is a step, each recorded step is counted, and each request a call.
pub record IsWithin {J O : Type 0} (tid : String) (limit : Budget) (l : Loop J O) : Type 0 where
  pub budget : l.inv.budget ≡ limit
  pub steps-le : l.inv.spend.steps ≤ limit.max_steps
  pub calls-le : l.inv.spend.tool_calls ≤ l.inv.spend.steps
  pub recorded : length l.inv.steps ≤ l.inv.spend.steps
  pub requested : length l.sent ≤ l.inv.spend.tool_calls
  pub sendable : All (IsSendable tid) l.sent

-- The end of a run, with the reason that it is given.
pub record Stopped {J O : Type 0} (tid : String) (limit : Budget) (l : Loop J O) : Type 0 where
  pub within : IsWithin tid limit l
  pub reason : TerminationReason
  pub stopped : l.inv.termination_reason ≡ some reason
  pub not_calls : limit.max_steps ≤ limit.max_tool_calls → reason ≢ term_tool_calls

concluded_ne : term_concluded ≢ term_tool_calls
concluded_ne e = cc

failed_ne : term_failed ≢ term_tool_calls
failed_ne e = cc

length_kept {ℓ} :
    {A : Type ℓ} (kept : Bool) (xs : List A) (x : A) (n : ℕ)
    → length xs ≤ n
    → length (if kept then xs ++ x ∷ [] else xs) ≤ n + 1
length_kept true xs x n h = omega (arith, length-append xs (x ∷ []))
length_kept false xs x n h = omega arith

module _ {J O : Type 0} (jn : Journal J) (on : ObjectPutter O) (d : Deps) (tid : String)
    (limit : Budget) where
  module _ (k : Loop J O) (w : IsWithin tid limit k) where
    take_proposal-IsWithin : (p : Proposal) → IsWithin tid limit (take_proposal p k)
    take_proposal-IsWithin p =
        let (a, b, c, e, f, g, h) = take_proposal-counts p k in
        record {
          budget = c ∙ w.budget;
          steps-le = rw a w.steps-le;
          calls-le = rw (a, b) w.calls-le;
          recorded = rw (a, e) w.recorded;
          requested = rw (b, g) w.requested;
          sendable = rw g w.sendable;
        }

    swap_reasoner-IsWithin : (r : Round) (e : Error) → IsWithin tid limit (swap_reasoner d r e k)
    unfolding swap_reasoner
    swap_reasoner-IsWithin r e = record {
      budget = w.budget;
      steps-le = w.steps-le;
      calls-le = w.calls-le;
      recorded = w.recorded;
      requested = w.requested;
      sendable = w.sendable;
    }

    terminate-IsWithin : (reason : TerminationReason) → IsWithin tid limit (terminate reason k)
    terminate-IsWithin reason = record {
      budget = w.budget;
      steps-le = w.steps-le;
      calls-le = w.calls-le;
      recorded = w.recorded;
      requested = w.requested;
      sendable = w.sendable;
    }

    reason_only-IsWithin :
        (r : Round) (p : Proposal)
        → k.inv.spend.steps < limit.max_steps
        → IsWithin tid limit (reason_only jn on d tid r p k)
    unfolding reason_only
    reason_only-IsWithin r p h = record {
      budget = w.budget;
      steps-le = omega arith;
      calls-le = omega (arith, w.calls-le);
      recorded = length_kept _ k.inv.steps _ _ w.recorded;
      requested = w.requested;
      sendable = w.sendable;
    }

    refuse_call-IsWithin :
        (r : Round) (p : Proposal) (c : ToolArgs)
        → k.inv.spend.steps < limit.max_steps
        → IsWithin tid limit (refuse_call jn on d tid r p c k)
    unfolding refuse_call
    refuse_call-IsWithin r p c h = record {
      budget = w.budget;
      steps-le = omega arith;
      calls-le = omega (arith, w.calls-le);
      recorded = omega (arith, w.recorded, length-append {0});
      requested = omega (arith, w.requested);
      sendable = w.sendable;
    }

    run_call-IsWithin :
        (r : Round) (p : Proposal) (c : ToolArgs)
        → k.inv.spend.steps < limit.max_steps
        → IsSendable tid c
        → IsWithin tid limit (run_call jn on d tid r p c k)
    unfolding run_call
    run_call-IsWithin r p c h q = record {
      budget = w.budget;
      steps-le = omega arith;
      calls-le = omega (arith, w.calls-le);
      recorded = omega (arith, w.recorded, length-append {0});
      requested = omega (arith, w.requested);
      sendable = (q, w.sendable);
    }

  module _ (r : Round) (l l' : Loop J O) (w : IsWithin tid limit l) where
    cleared-IsWithin : IsWithin tid limit (clear_pending l)
    cleared-IsWithin = record {
      budget = w.budget;
      steps-le = w.steps-le;
      calls-le = w.calls-le;
      recorded = w.recorded;
      requested = w.requested;
      sendable = w.sendable;
    }

    fail_with-IsWithin : (e : Error) → IsWithin tid limit (fail_with jn on d e (clear_pending l))
    fail_with-IsWithin e = record {
      budget = w.budget;
      steps-le = w.steps-le;
      calls-le = w.calls-le;
      recorded = w.recorded;
      requested = w.requested;
      sendable = w.sendable;
    }

    room :
        (p : Proposal)
        → budget_stop d r l ≡ none
        → (take_proposal p (clear_pending l)).inv.spend.steps < limit.max_steps
    room p b = ground (arith, steps-lt d r l, take_proposal-counts p (clear_pending l))

    Turn-IsWithin : Turn jn on d tid r l (again l') → IsWithin tid limit l'
    Turn-IsWithin (out_of_budget reason b e) = cc
    Turn-IsWithin (gives_up e) = cc
    Turn-IsWithin (fails x e) = cc
    Turn-IsWithin (concludes p e) = cc
    Turn-IsWithin (swaps x k g e) =
        subst (IsWithin tid limit) (cc) (swap_reasoner-IsWithin _ cleared-IsWithin r x)
    Turn-IsWithin (reasons p b e) =
        subst (IsWithin tid limit) (cc)
          (reason_only-IsWithin _ (take_proposal-IsWithin _ cleared-IsWithin p) r p (room p b))
    Turn-IsWithin (refuses p c b e) =
        subst (IsWithin tid limit) (cc)
          (refuse_call-IsWithin _ (take_proposal-IsWithin _ cleared-IsWithin p) r p c (room p b))
    Turn-IsWithin (runs p c b t v e) =
        subst (IsWithin tid limit) (cc) (
          run_call-IsWithin _ (take_proposal-IsWithin _ cleared-IsWithin p) r p c (room p b) (t, v))

    -- The limit of tool calls is not what stops a round, where it is not below that of steps.
    reason_ne :
        (reason : TerminationReason)
        → limit.max_steps ≤ limit.max_tool_calls
        → budget_stop d r l ≡ some reason
        → reason ≢ term_tool_calls
    unfolding budget_stop
    reason_ne reason h b e = ground (arith, w.calls-le, w.budget)

    Turn-Stopped : Turn jn on d tid r l (stop l') → Stopped tid limit l'
    Turn-Stopped (out_of_budget reason b e) = subst (Stopped tid limit) (cc) (record {
      within = terminate-IsWithin l w reason;
      reason = reason;
      stopped = refl;
      not_calls = λ h. reason_ne reason h b;
    })
    Turn-Stopped (gives_up e) = subst (Stopped tid limit) (cc) (record {
      within = terminate-IsWithin _ cleared-IsWithin term_concluded;
      reason = term_concluded;
      stopped = refl;
      not_calls = λ h. concluded_ne;
    })
    Turn-Stopped (fails x e) = subst (Stopped tid limit) (cc) (record {
      within = fail_with-IsWithin x;
      reason = term_failed;
      stopped = refl;
      not_calls = λ h. failed_ne;
    })
    Turn-Stopped (concludes p e) = subst (Stopped tid limit) (cc) (record {
      within = terminate-IsWithin _ (take_proposal-IsWithin _ cleared-IsWithin p) term_concluded;
      reason = term_concluded;
      stopped = refl;
      not_calls = λ h. concluded_ne;
    })
    Turn-Stopped (swaps x k g e) = cc
    Turn-Stopped (reasons p b e) = cc
    Turn-Stopped (refuses p c b e) = cc
    Turn-Stopped (runs p c b t v e) = cc

  -- Every run that starts within the limits stops within them.
  pub investigate_loop-Stopped :
      (incident : Incident) (n : ℕ) (rs : ℕ → Round) (l l' : Loop J O)
      → IsWithin tid limit l
      → investigate_loop jn on d tid incident n rs l ≡ some l'
      → Stopped tid limit l'
  investigate_loop-Stopped incident n rs l l' w h =
      loop_rule jn on d (IsWithin tid limit) (Stopped tid limit) tid incident n rs l l'
        (λ r k k' p t. Turn-IsWithin r k k' p t, λ r k k' p t. Turn-Stopped r k k' p t) w h
