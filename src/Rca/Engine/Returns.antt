-- ===== src/Rca/Engine/Returns.antt =====
-- The loop ends: each round that goes on either counts a step or swaps the reasoner, once.
use tracing_bot.Prelude.{
  ℕ, zero, suc, ◌+◌, ◌-◌, ◌<◌, ◌≤◌, String, false, Option, none, some, ◌≡◌, refl, arith,
  if◌then◌else◌,
}
use tracing_bot.Rca.Types.{Incident, Proposal}
use tracing_bot.Rca.Journal.{Journal, ObjectPutter}
use tracing_bot.Rca.Engine.{
  fallback, Deps, Round, Loop, Next, again, stop, is_llm, budget_stop, clear_pending, swap_reasoner,
  take_proposal, reason_only, refuse_call, run_call, round, investigate_loop,
}
use tracing_bot.Rca.Engine.Rounds.{
  Turn, out_of_budget, gives_up, fails, swaps, concludes, reasons, refuses, runs, round-Turn,
}

-- Where no limit stops a round, the steps are below their limit.
pub steps-lt :
    {J O : Type 0} (d : Deps) (r : Round) (l : Loop J O)
    → budget_stop d r l ≡ none
    → l.inv.spend.steps < l.inv.budget.max_steps
unfolding budget_stop
steps-lt d r l h = ground arith

-- The proposal spends no step, and leaves what the rounds are counted by.
pub take_proposal-counts :
    {J O : Type 0} (p : Proposal) (l : Loop J O)
    → ((take_proposal p l).inv.spend.steps ≡ l.inv.spend.steps)
      × ((take_proposal p l).inv.spend.tool_calls ≡ l.inv.spend.tool_calls)
      × ((take_proposal p l).inv.budget ≡ l.inv.budget)
      × ((take_proposal p l).inv.steps ≡ l.inv.steps)
      × ((take_proposal p l).reasoner ≡ l.reasoner)
      × ((take_proposal p l).sent ≡ l.sent)
      × ((take_proposal p l).inv.id ≡ l.inv.id)
unfolding take_proposal
take_proposal-counts p l = ground arith

module _ {J O : Type 0} (jn : Journal J) (on : ObjectPutter O) (d : Deps) where
  -- The rounds that are left at most, the current one not counted.
  pub rounds_left : Loop J O → ℕ
  rounds_left l =
      (l.inv.budget.max_steps - l.inv.spend.steps) + (if is_llm (d.kind l.reasoner) then 1 else 0)

  pub rounds_left-le : (l : Loop J O) → rounds_left l ≤ l.inv.budget.max_steps + 1
  unfolding rounds_left
  rounds_left-le l = ground arith

  Turn-lt :
      (tid : String) (r : Round) (l l' : Loop J O)
      → is_llm (d.kind fallback) ≡ false
      → Turn jn on d tid r l (again l')
      → rounds_left l' < rounds_left l
  unfolding rounds_left reason_only refuse_call run_call swap_reasoner
  Turn-lt tid r l l' f (out_of_budget reason b e) = cc
  Turn-lt tid r l l' f (gives_up e) = cc
  Turn-lt tid r l l' f (fails x e) = cc
  Turn-lt tid r l l' f (concludes p e) = cc
  Turn-lt tid r l l' f (swaps x k g e) = ground arith
  Turn-lt tid r l l' f (reasons p b e) =
      ground (arith, steps-lt d r l, take_proposal-counts p (clear_pending l))
  Turn-lt tid r l l' f (refuses p c b e) =
      ground (arith, steps-lt d r l, take_proposal-counts p (clear_pending l))
  Turn-lt tid r l l' f (runs p c b t v e) =
      ground (arith, steps-lt d r l, take_proposal-counts p (clear_pending l))

  Returns_next :
      (tid : String) (incident : Incident) (n : ℕ) (rs : ℕ → Round) (l : Loop J O) (x : Next J O)
      → is_llm (d.kind fallback) ≡ false
      → rounds_left l < suc n
      → ((k : Loop J O)
          → rounds_left k < n
          → (l' : Loop J O) × (investigate_loop jn on d tid incident n (λ i. rs (suc i)) k
              ≡ some l'))
      → Turn jn on d tid (rs 0) l x
      → (l' : Loop J O) × (elim x as (λ _. Option (Loop J O)) [
        | stop k ↦ some k
        | again k ↦ investigate_loop jn on d tid incident n (λ i. rs (suc i)) k
      ]
          ≡ some l')
  Returns_next tid incident n rs l (stop k) f h rec t = (k, refl)
  Returns_next tid incident n rs l (again k) f h rec t =
      rec k (omega (arith, Turn-lt tid (rs 0) l k f t))

  pub investigate_loop-Returns :
      (tid : String) (incident : Incident)
      → is_llm (d.kind fallback) ≡ false
      → (n : ℕ) (rs : ℕ → Round) (l : Loop J O) → rounds_left l < n
      → (l' : Loop J O) × (investigate_loop jn on d tid incident n rs l ≡ some l')
  unfolding investigate_loop
  investigate_loop-Returns tid incident f zero rs l h = absurd (omega arith)
  investigate_loop-Returns tid incident f (suc n) rs l h =
      Returns_next tid incident n rs l (round jn on d tid incident (rs 0) l) f h
        (investigate_loop-Returns tid incident f n (λ i. rs (suc i)))
        (round-Turn jn on d tid (rs 0) l incident)
