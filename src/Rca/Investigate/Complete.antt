-- ===== src/Rca/Investigate/Complete.antt =====
-- `Investigate` returns, within its budget, and sends only calls that the registry may be given.
use tracing_bot.Prelude.{
  ℕ, ◌<◌, ◌≤◌, String, Bool, true, false, Option, none, some, [], ◌≡◌, ◌≢◌, refl, arith, sym, ◌∙◌,
  length, All, subst, inl, inr, Option-cases, Bool-cases, some_inj,
}
use tracing_bot.Prelude.Assoc.{lookup, lookup-put_self}
use tracing_bot.Rca.Types.{
  hypothesize, running, TerminationReason, term_concluded, term_tool_calls, Step, Investigation,
  Incident, journal_create, Result, ok, err,
}
use tracing_bot.Rca.Budget.{default_budget}
use tracing_bot.Rca.Journal.{Journal, ObjectPutter}
use tracing_bot.Rca.Engine.{fallback, Deps, Loop, is_llm, investigate_loop}
use tracing_bot.Rca.Engine.Returns.{rounds_left-le, rounds_left, investigate_loop-Returns}
use tracing_bot.Rca.Engine.Bounds.{IsSendable, IsWithin, investigate_loop-Stopped}
use tracing_bot.Rca.Investigate.{
  with_first, Engine, Setup, Outcome, new_investigation, terminal_status, conclude_with, first_loop,
  finish, investigate,
}

status-ne :
    (o : Option TerminationReason) (r : TerminationReason) (c : ℕ)
    → o ≡ some r
    → terminal_status o c ≢ running
unfolding terminal_status
status-ne none r c e h = cc
status-ne (some term_concluded) r c e h = ground arith
status-ne (some x) r c e h = cc

pub record IsComplete {J O : Type 0} (tid : String) (out : Outcome J O) : Type 0 where
  pub ended : out.inv.status ≢ running
  pub kept : lookup out.inv.id out.engine.invs ≡ some out.inv
  pub steps-le : out.inv.spend.steps ≤ 24
  pub calls-le : out.inv.spend.tool_calls ≤ out.inv.spend.steps
  pub recorded : length out.inv.steps ≤ out.inv.spend.steps
  pub requested : length out.sent ≤ out.inv.spend.tool_calls
  pub sendable : All (IsSendable tid) out.sent
  pub not_calls : out.inv.termination_reason ≢ some term_tool_calls

with_first-IsWithin :
    {J O : Type 0} {tid : String} (l : Loop J O) (kept : Bool) (st : Step) (inv : Investigation)
    → inv.budget ≡ default_budget
    → inv.spend.steps ≡ 0
    → inv.spend.tool_calls ≡ 0
    → inv.steps ≡ []
    → l.inv ≡ with_first kept st inv
    → l.sent ≡ []
    → IsWithin tid default_budget l
with_first-IsWithin l true st inv a b c e f g = record {
  budget = ground arith;
  steps-le = ground arith;
  calls-le = ground arith;
  recorded = ground arith;
  requested = ground arith;
  sendable = rw g tt;
}
with_first-IsWithin l false st inv a b c e f g = record {
  budget = ground arith;
  steps-le = ground arith;
  calls-le = ground arith;
  recorded = ground arith;
  requested = ground arith;
  sendable = rw g tt;
}

module _ {J O : Type 0} (jn : Journal J) (on : ObjectPutter O) (d : Deps) where
  pub first_loop-IsWithin :
      (s : Setup) (tid : String) (incident : Incident) (e : Engine J O) (j : J)
      → IsWithin tid default_budget (first_loop jn on d s tid incident e j)
  unfolding first_loop
  first_loop-IsWithin s tid incident e j =
      with_first-IsWithin (first_loop jn on d s tid incident e j) _ _
        (record (new_investigation d s tid incident) { phase = hypothesize }) refl refl refl refl
        refl refl

  abbrev loop_of : Setup → String → Incident → Engine J O → Option (Loop J O)
  loop_of s tid incident e = investigate_loop jn on d tid incident 26 s.rounds (
      first_loop jn on d s tid incident e
        (jn.create e.journal tid (new_investigation d s tid incident)).0)

  abbrev is_created : Setup → String → Incident → Engine J O → Bool
  is_created s tid incident e = (jn.create e.journal tid (new_investigation d s tid incident)).1

  -- What `Investigate` returned, and the end of the loop that it comes from.
  pub investigate-eq_ok :
      (s : Setup) (tid : String) (incident : Incident) (e : Engine J O) (out : Outcome J O)
      → investigate jn on d s tid incident e ≡ some (ok out)
      → (l : Loop J O) × (loop_of s tid incident e ≡ some l)
        × (out ≡ finish jn on d s tid incident e l)
        × (is_created s tid incident e ≡ true)
  unfolding investigate
  investigate-eq_ok s tid incident e out h = elim (Bool-cases (is_created s tid incident e)) [
    | inr c ↦ absurd (ground arith)
    | inl c ↦ elim (Option-cases (loop_of s tid incident e)) [
      | inl n ↦ absurd (ground arith)
      | inr (l, k) ↦ (l, k, ground arith, c)
    ]
  ]

  -- If the fallback reasoner is not an LLM reasoner, then Investigate returns, whatever the
  -- reasoners, the tools, the journal and the clock do: the 26 rounds of fuel are enough.
  pub investigate-Returns :
      (s : Setup) (tid : String) (incident : Incident) (e : Engine J O)
      → is_llm (d.kind fallback) ≡ false
      → (x : Result (Outcome J O)) × (investigate jn on d s tid incident e ≡ some x)
  unfolding investigate
  investigate-Returns s tid incident e h =
      let first =
        first_loop jn on d s tid incident e
          (jn.create e.journal tid (new_investigation d s tid incident)).0 in
      let limit : first.inv.budget ≡ default_budget =
        (first_loop-IsWithin s tid incident e _).budget in
      let few : rounds_left jn on d first < 26 = ground (arith, rounds_left-le jn on d first) in
      let (l, k) = investigate_loop-Returns jn on d tid incident h 26 s.rounds first few in
      elim (Bool-cases (is_created s tid incident e)) [
        | inr c ↦ (err journal_create, ground arith)
        | inl c ↦ (ok (finish jn on d s tid incident e l), ground arith)
      ]

  -- An investigation that Investigate returns is not running and is what the engine keeps under its
  -- id; it has at most 24 steps counted, no more calls than steps, no more recorded steps than counted
  -- ones and no more requests than calls; every request was of the tenant and passed validateToolArgs;
  -- and it was not ended by the limit of tool calls.
  pub investigate-IsComplete :
      (s : Setup) (tid : String) (incident : Incident) (e : Engine J O) (out : Outcome J O)
      → investigate jn on d s tid incident e ≡ some (ok out)
      → IsComplete tid out
  unfolding finish conclude_with
  investigate-IsComplete s tid incident e out h =
      let (l, k, eq, _) = investigate-eq_ok s tid incident e out h in
      let st =
        investigate_loop-Stopped jn on d tid default_budget incident 26 s.rounds _ l
          (first_loop-IsWithin s tid incident e _) k in
      subst (IsComplete tid) (sym eq) (record {
        ended = status-ne _ st.reason _ st.stopped;
        kept = lookup-put_self _ _ e.invs;
        steps-le = st.within.steps-le;
        calls-le = st.within.calls-le;
        recorded = st.within.recorded;
        requested = st.within.requested;
        sendable = st.within.sendable;
        not_calls = λ q. st.not_calls (omega arith) (some_inj (sym st.stopped ∙ q));
      })
