-- ===== src/Rca/Investigate/Swapped.antt =====
-- An investigation that was handed to the fallback reasoner never concludes.
use tracing_bot.Prelude.{
  ℕ, String, Bool, true, false, ◌&&◌, Option, none, some, [], ◌≡◌, ◌≢◌, refl, arith, All,
  All-append, ◌⊎◌, inl, inr, Bool-cases,
}
use tracing_bot.Prelude.Float.{Float, lt_float, le_float, le_float-eq_false}
use tracing_bot.Rca.Types.{
  hypothesize, concluded, TerminationReason, term_concluded, Step, Investigation, Incident,
  Proposal, ok, confidence_threshold, swapped_cap,
}
use tracing_bot.Rca.Interest.{
  scope_investigation, scope_recurrence, InterestPredicate, scope_predicate,
}
use tracing_bot.Rca.Journal.{Journal, ObjectPutter}
use tracing_bot.Rca.Engine.{
  Deps, Round, Loop, again, stop, terminate, clear_pending, swap_reasoner, take_proposal,
  reason_only, refuse_call, run_call, investigate_loop,
}
use tracing_bot.Rca.Engine.Rounds.{
  fail_with, Turn, out_of_budget, gives_up, fails, swaps, concludes, reasons, refuses, runs,
  loop_rule,
}
use tracing_bot.Rca.Investigate.{
  scope_call, last_calls, with_first, Engine, Setup, InterestCall, set_call, remove_call, Outcome,
  new_investigation, terminal_status, is_concluded, capped, conclude_with, first_loop, finish,
  investigate,
}
use tracing_bot.Rca.Investigate.Complete.{investigate-eq_ok}

-- Not swapped, or under the cap.
abbrev IsCapped : {J O : Type 0} → Loop J O → Type 0
IsCapped l = (l.inv.reasoner_swaps ≡ []) ⊎ (l.confidence_cap ≡ swapped_cap)

take_proposal-IsCapped :
    {J O : Type 0} (p : Proposal) (l : Loop J O) → IsCapped l → IsCapped (take_proposal p l)
unfolding take_proposal
take_proposal-IsCapped p l (inl h) = inl (ground arith)
take_proposal-IsCapped p l (inr h) = inr (ground arith)

carry : {J O : Type 0} (l k : Loop J O) → l ≡ k → IsCapped k → IsCapped l
carry l k e (inl h) = inl (ground arith)
carry l k e (inr h) = inr (ground arith)

no_swaps :
    (kept : Bool) (st : Step) (inv : Investigation)
    → inv.reasoner_swaps ≡ []
    → (with_first kept st inv).reasoner_swaps ≡ []
no_swaps true st inv h = h
no_swaps false st inv h = h

module _ {J O : Type 0} (jn : Journal J) (on : ObjectPutter O) (d : Deps) (tid : String) where
  Turn-IsCapped :
      (r : Round) (l l' : Loop J O) → IsCapped l → Turn jn on d tid r l (again l') → IsCapped l'
  unfolding reason_only refuse_call run_call swap_reasoner
  Turn-IsCapped r l l' w (out_of_budget reason b e) = absurd (cc)
  Turn-IsCapped r l l' w (gives_up e) = absurd (cc)
  Turn-IsCapped r l l' w (fails x e) = absurd (cc)
  Turn-IsCapped r l l' w (concludes p e) = absurd (cc)
  Turn-IsCapped r l l' w (swaps x k g e) =
      carry l' (swap_reasoner d r x (clear_pending l)) (cc) (inr refl)
  Turn-IsCapped r l l' w (reasons p b e) =
      let k = take_proposal p (clear_pending l) in
      carry l' (reason_only jn on d tid r p k) (cc) (take_proposal-IsCapped p (clear_pending l) w)
  Turn-IsCapped r l l' w (refuses p c b e) =
      let k = take_proposal p (clear_pending l) in
      carry l' (refuse_call jn on d tid r p c k) (cc) (take_proposal-IsCapped p (clear_pending l) w)
  Turn-IsCapped r l l' w (runs p c b t v e) =
      let k = take_proposal p (clear_pending l) in
      carry l' (run_call jn on d tid r p c k) (cc) (take_proposal-IsCapped p (clear_pending l) w)

  Turn-IsCapped_stop :
      (r : Round) (l l' : Loop J O) → IsCapped l → Turn jn on d tid r l (stop l') → IsCapped l'
  Turn-IsCapped_stop r l l' w (out_of_budget reason b e) = carry l' (terminate reason l) (cc) w
  Turn-IsCapped_stop r l l' w (gives_up e) =
      carry l' (terminate term_concluded (clear_pending l)) (cc) w
  Turn-IsCapped_stop r l l' w (fails x e) = carry l' (fail_with jn on d x (clear_pending l)) (cc) w
  Turn-IsCapped_stop r l l' w (concludes p e) =
      carry l' (terminate term_concluded (take_proposal p (clear_pending l))) (cc)
        (take_proposal-IsCapped p (clear_pending l) w)
  Turn-IsCapped_stop r l l' w (swaps x k g e) = absurd (cc)
  Turn-IsCapped_stop r l l' w (reasons p b e) = absurd (cc)
  Turn-IsCapped_stop r l l' w (refuses p c b e) = absurd (cc)
  Turn-IsCapped_stop r l l' w (runs p c b t v e) = absurd (cc)

  loop-IsCapped :
      (incident : Incident) (n : ℕ) (rs : ℕ → Round) (l l' : Loop J O)
      → IsCapped l
      → investigate_loop jn on d tid incident n rs l ≡ some l'
      → IsCapped l'
  loop-IsCapped incident n rs l l' w h =
      loop_rule jn on d IsCapped IsCapped tid incident n rs l l'
        (λ r k k' p t. Turn-IsCapped r k k' p t, λ r k k' p t. Turn-IsCapped_stop r k k' p t) w h

  first_loop-IsCapped :
      (s : Setup) (incident : Incident) (e : Engine J O) (j : J)
      → IsCapped (first_loop jn on d s tid incident e j)
  unfolding first_loop
  first_loop-IsCapped s incident e j =
      inl (no_swaps _ _ (record (new_investigation d s tid incident) { phase = hypothesize }) refl)

-- What is capped lies below the threshold.
le_float-capped : (c : Float) → le_float confidence_threshold (capped swapped_cap c) ≡ false
unfolding capped lt_float le_float
le_float-capped c = elim (Bool-cases (lt_float swapped_cap c)) [
  | inl h ↦ rw h refl
  | inr h ↦ rw h (le_float-eq_false swapped_cap confidence_threshold c refl h)
]

and_false : (b : Bool) → (b && false) ≡ false
and_false true = refl
and_false false = refl

abbrev pub is_recurrence : InterestCall → Bool
is_recurrence (set_call p) = elim p.scope [ scope_recurrence ↦ true | scope_investigation ↦ false ]
is_recurrence (remove_call id) = false

status-capped :
    (o : Option TerminationReason) (c : Float)
    → le_float confidence_threshold c ≡ false
    → terminal_status o c ≢ concluded
unfolding terminal_status
status-capped none c h e = cc
status-capped (some term_concluded) c h e = ground arith
status-capped (some r) c h e = cc

abbrev pub IsTransient : InterestCall → Type 0
IsTransient c = is_recurrence c ≡ false

scope_call-IsTransient :
    (s : Setup) (tid : String) (inv : Investigation) (incident : Incident)
    (sink : Option (InterestPredicate → Option String))
    → All IsTransient (scope_call s tid inv incident sink).0
unfolding scope_predicate
scope_call-IsTransient s tid inv incident none = tt
scope_call-IsTransient s tid inv incident (some set) = (refl, tt)

last_calls-IsTransient :
    (s : Setup) (tid : String) (inv : Investigation) (id : String)
    (sink : Option (InterestPredicate → Option String))
    → le_float confidence_threshold inv.confidence ≡ false
    → All IsTransient (last_calls s tid inv id sink)
last_calls-IsTransient s tid inv id none h = tt
last_calls-IsTransient s tid inv id (some set) h =
    (refl, rw h (rw (and_false (is_concluded inv.status)) tt))

module _ {J O : Type 0} (jn : Journal J) (on : ObjectPutter O) (d : Deps) where
  -- An investigation that was swapped to the fallback reasoner has a confidence below
  -- the threshold and is not concluded, and the sink is asked for no recurrence predicate.
  pub investigate-swapped :
      (s : Setup) (tid : String) (incident : Incident) (e : Engine J O) (out : Outcome J O)
      → investigate jn on d s tid incident e ≡ some (ok out)
      → out.inv.reasoner_swaps ≢ []
      → (le_float confidence_threshold out.inv.confidence ≡ false)
        × (out.inv.status ≢ concluded)
        × All IsTransient out.calls
  unfolding finish conclude_with
  investigate-swapped s tid incident e out h swapped =
      let (l, k, eq, _) = investigate-eq_ok jn on d s tid incident e out h in
      let end = finish jn on d s tid incident e l in
      let first = record (new_investigation d s tid incident) { phase = hypothesize } in
      let scope = scope_call s tid first incident s.set_predicate in
      let low : le_float confidence_threshold end.inv.confidence ≡ false =
        elim (loop-IsCapped jn on d tid incident 26 s.rounds _ l
          (first_loop-IsCapped jn on d tid s incident e _) k) [
            | inl n ↦ absurd (swapped (rw eq n))
            | inr c ↦ rw c (le_float-capped _)
          ] in
      rw eq (
        low,
        status-capped _ _ low,
        All-append IsTransient scope.0 _
            (scope_call-IsTransient s tid first incident s.set_predicate)
            (last_calls-IsTransient s tid end.inv scope.1 s.set_predicate low),
      )
