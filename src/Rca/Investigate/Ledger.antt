-- ===== src/Rca/Investigate/Ledger.antt =====
-- The ledger of internal/rca/budget.go after an investigation.
use tracing_bot.Prelude.{
  String, Bool, true, false, Option, none, some, ◌≡◌, refl, arith, subst, inl, inr, sym, ◌∙◌,
  Bool-cases, ap,
}
use tracing_bot.Prelude.Assoc.{lookup, lookup-put_self}
use tracing_bot.Rca.Types.{
  contextualize, hypothesize, TerminationReason, term_concluded, Budget, Spend, Charge, no_spend,
  Step, Investigation, Incident, ToolArgs, Proposal, ok,
}
use tracing_bot.Rca.Budget.{
  default_budget, MemBudget, reserve, spend_at, limit_of, add_charge, charge, difference, remaining,
  set_terminated,
}
use tracing_bot.Rca.Journal.{Journal, ObjectPutter}
use tracing_bot.Rca.Engine.{
  Deps, Round, Loop, again, stop, pure_step, is_zero_charge, terminate, clear_pending,
  swap_reasoner, take_proposal, reason_only, refuse_call, run_call,
}
use tracing_bot.Rca.Engine.Rounds.{
  fail_with, Turn, out_of_budget, gives_up, fails, swaps, concludes, reasons, refuses, runs,
  loop_rule,
}
use tracing_bot.Rca.Investigate.{
  Engine, Setup, Outcome, new_investigation, conclude_with, set_reason, with_first, first_loop,
  finish, investigate,
}
use tracing_bot.Rca.Investigate.Complete.{investigate-eq_ok}

spend_at-charge :
    (b : MemBudget) (id : String) (c : Charge)
    → spend_at (charge b id c) id ≡ add_charge (spend_at b id) c
unfolding charge
spend_at-charge b id c =
    ground (arith, lookup-put_self {V = Spend} id (add_charge (spend_at b id) c) b.spend)

budget-charge :
    (b : MemBudget) (id : String) (c : Charge)
    → lookup id (charge b id c).budget ≡ lookup id b.budget
unfolding charge
budget-charge b id c = refl

-- What is charged: the tokens and the cost, and neither steps nor calls.
abbrev pub charged : Spend → Spend
charged s = record s { tool_calls = 0; steps = 0 }

-- The ledger has the budget of the investigation, and its tokens and cost.
pub record IsLedger {J O : Type 0} (id : String) (l : Loop J O) : Type 0 where
  pub same : l.inv.id ≡ id
  pub limit : lookup id l.budget.budget ≡ some default_budget
  pub spent : spend_at l.budget id ≡ charged l.inv.spend

remaining-IsLedger :
    {J O : Type 0} (id : String) (l : Loop J O)
    → IsLedger id l
    → remaining l.budget id ≡ difference default_budget (charged l.inv.spend)
unfolding remaining
remaining-IsLedger id l t =
    ap (λ (o : Option Budget). difference (limit_of o) (spend_at l.budget id)) t.limit
    ∙ ap (λ (x : Spend). difference default_budget x) t.spent

abbrev nothing : Charge
nothing = record { tokens_in = 0; cached_tokens_in = 0; tokens_out = 0; cost_micro_usd = 0 }

add_charge-nothing : (s : Spend) → add_charge s nothing ≡ s
add_charge-nothing s = ground arith

module _ {J O : Type 0} (jn : Journal J) (on : ObjectPutter O) (d : Deps) (tid id : String) where
  carry :
      (l k : Loop J O)
      → k.inv.id ≡ l.inv.id
      → k.budget ≡ l.budget
      → charged k.inv.spend ≡ charged l.inv.spend
      → IsLedger id l
      → IsLedger id k
  carry l k a b c t = record {
    same = a ∙ t.same;
    limit = rw b t.limit;
    spent = rw b t.spent ∙ sym c;
  }

  -- One more charge on both sides.
  once :
      (l k : Loop J O) (c : Charge)
      → k.inv.id ≡ l.inv.id
      → k.budget ≡ charge l.budget l.inv.id c
      → charged k.inv.spend ≡ add_charge (charged l.inv.spend) c
      → IsLedger id l
      → IsLedger id k
  once l k c a b e t =
      let b' : k.budget ≡ charge l.budget id c =
        subst (λ (i : String). k.budget ≡ charge l.budget i c) t.same b in
      record {
        same = a ∙ t.same;
        limit = rw b' (budget-charge l.budget id c ∙ t.limit);
        spent =
            rw b' (spend_at-charge l.budget id c)
            ∙ ap (λ (x : Spend). add_charge x c) t.spent
            ∙ sym e;
      }

  take_proposal-IsLedger :
      (p : Proposal) (l : Loop J O) → IsLedger id l → IsLedger id (take_proposal p l)
  unfolding take_proposal
  take_proposal-IsLedger p l t = elim (Bool-cases (is_zero_charge p.usage)) [
    | inl z ↦ carry l (take_proposal p l) (ground arith) (ground arith) (ground arith) t
    | inr z ↦ once l (take_proposal p l) p.usage (ground arith) (ground arith) (ground arith) t
  ]

  run_call-IsLedger :
      (r : Round) (p : Proposal) (c : ToolArgs) (l : Loop J O)
      → IsLedger id l
      → IsLedger id (run_call jn on d tid r p c l)
  unfolding run_call
  run_call-IsLedger r p c l t =
      once l (run_call jn on d tid r p c l) nothing refl refl
        (sym (add_charge-nothing (charged l.inv.spend))) t

  module _ (r : Round) (l l' : Loop J O) (t : IsLedger id l) where
    cleared : IsLedger id (clear_pending l)
    cleared = carry l (clear_pending l) refl refl refl t

    proposed : (p : Proposal) → IsLedger id (take_proposal p (clear_pending l))
    proposed p = take_proposal-IsLedger p (clear_pending l) cleared

    Turn-IsLedger : Turn jn on d tid r l (again l') → IsLedger id l'
    unfolding swap_reasoner reason_only refuse_call
    Turn-IsLedger (out_of_budget reason b e) = absurd (cc)
    Turn-IsLedger (gives_up e) = absurd (cc)
    Turn-IsLedger (fails x e) = absurd (cc)
    Turn-IsLedger (concludes p e) = absurd (cc)
    Turn-IsLedger (swaps x k g e) =
        subst (IsLedger id) (cc) (carry l (swap_reasoner d r x (clear_pending l)) refl refl refl t)
    Turn-IsLedger (reasons p b e) =
        let k = take_proposal p (clear_pending l) in
        subst (IsLedger id) (cc)
          (carry k (reason_only jn on d tid r p k) refl refl refl (proposed p))
    Turn-IsLedger (refuses p c b e) =
        let k = take_proposal p (clear_pending l) in
        subst (IsLedger id) (cc)
          (carry k (refuse_call jn on d tid r p c k) refl refl refl (proposed p))
    Turn-IsLedger (runs p c b v w e) =
        subst (IsLedger id) (cc) (run_call-IsLedger r p c _ (proposed p))

    Turn-IsLedger_stop : Turn jn on d tid r l (stop l') → IsLedger id l'
    Turn-IsLedger_stop (out_of_budget reason b e) =
        subst (IsLedger id) (cc) (carry l (terminate reason l) refl refl refl t)
    Turn-IsLedger_stop (gives_up e) =
        subst (IsLedger id) (cc)
          (carry l (terminate term_concluded (clear_pending l)) refl refl refl t)
    Turn-IsLedger_stop (fails x e) =
        subst (IsLedger id) (cc) (carry l (fail_with jn on d x (clear_pending l)) refl refl refl t)
    Turn-IsLedger_stop (concludes p e) =
        let k = take_proposal p (clear_pending l) in
        subst (IsLedger id) (cc) (carry k (terminate term_concluded k) refl refl refl (proposed p))
    Turn-IsLedger_stop (swaps x k g e) = absurd (cc)
    Turn-IsLedger_stop (reasons p b e) = absurd (cc)
    Turn-IsLedger_stop (refuses p c b e) = absurd (cc)
    Turn-IsLedger_stop (runs p c b v w e) = absurd (cc)

with_first-IsLedger :
    {J O : Type 0} (l : Loop J O) (kept : Bool) (st : Step) (inv : Investigation) (b : MemBudget)
    → l.inv ≡ with_first kept st inv
    → inv.spend ≡ no_spend
    → l.budget ≡ reserve b inv.id default_budget
    → IsLedger inv.id l
unfolding reserve
with_first-IsLedger l true st inv b e n h = record {
  same = rw e;
  limit = rw h (lookup-put_self inv.id default_budget b.budget);
  spent = ground (arith, lookup-put_self {V = Spend} inv.id no_spend b.spend);
}
with_first-IsLedger l false st inv b e n h = record {
  same = rw e;
  limit = rw h (lookup-put_self inv.id default_budget b.budget);
  spent = ground (arith, lookup-put_self {V = Spend} inv.id no_spend b.spend);
}

spend_at-set_reason :
    (b : MemBudget) (id i : String) (o : Option TerminationReason)
    → remaining (set_reason b i o) id ≡ remaining b id
unfolding remaining set_terminated
spend_at-set_reason b id i none = refl
spend_at-set_reason b id i (some r) = refl

module _ {J O : Type 0} (jn : Journal J) (on : ObjectPutter O) (d : Deps) where
  -- After Investigate, Remaining answers the default limits of tokens and cost less what the
  -- investigation spent of them, but the whole limits of steps and tool calls.
  pub remaining-investigate :
      (s : Setup) (tid : String) (incident : Incident) (e : Engine J O) (out : Outcome J O)
      → investigate jn on d s tid incident e ≡ some (ok out)
      → remaining out.engine.budget s.id ≡ difference default_budget (charged out.inv.spend)
  unfolding finish conclude_with first_loop
  remaining-investigate s tid incident e out h =
      let (l, k, eq, _) = investigate-eq_ok jn on d s tid incident e out h in
      let inv = new_investigation d s tid incident in
      let j = (jn.create e.journal tid inv).0 in
      let first =
        with_first-IsLedger (first_loop jn on d s tid incident e j) _
          (pure_step s.first_step_id 0 contextualize s.first_step_at)
          (record inv { phase = hypothesize }) e.budget refl refl refl in
      let t =
        loop_rule jn on d (IsLedger s.id) (IsLedger s.id) tid incident 26 s.rounds _ l
          (
            λ r k k' t u. Turn-IsLedger jn on d tid s.id r k k' t u,
            λ r k k' t u. Turn-IsLedger_stop jn on d tid s.id r k k' t u,
          )
          first k in
      rw eq
        (spend_at-set_reason l.budget s.id _ l.inv.termination_reason ∙ remaining-IsLedger s.id l t)
