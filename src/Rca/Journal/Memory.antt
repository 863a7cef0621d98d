-- ===== src/Rca/Journal/Memory.antt =====
-- The journal and the store in memory keep what they are given.
use tracing_bot.Prelude.{
  String, true, Option-cases, none, some, List, [], ◌∷◌, ◌++◌, ◌≡◌, ◌≢◌, arith, eq_iff, str_eq, inl,
  inr,
}
use tracing_bot.Prelude.Assoc.{lookup, lookup-put, lookup-put_self}
use tracing_bot.Prelude.Bytes.{Bytes}
use text.Mathlib.TextLemmas.{append_cancel_left}
use tracing_bot.Rca.Types.{Time, InvestigationStatus, Step, Investigation}
use tracing_bot.Rca.Journal.{
  steps_at, object_key, MemJournal, create, append_step, steps, set_status, mem_journal,
  MemObjectStore, put_object, get_object, mem_object_store,
}
use tracing_bot.Rca.Journal.Laws.{KeepsSteps, KeepsBodies}

-- No investigation and no steps under the id.
abbrev pub IsFresh : MemJournal → String → Type 0
IsFresh j id = (lookup id j.invs ≡ none) × (lookup id j.steps ≡ none)

-- A journal that gives steps has an investigation of the tenant.
steps-eq-some :
    (j : MemJournal) (tid id : String) (xs : List Step)
    → steps j tid id ≡ some xs
    → (inv : Investigation) × (lookup id j.invs ≡ some inv)
      × (str_eq inv.tenant tid ≡ true)
      × (steps_at id j.steps ≡ xs)
unfolding steps
steps-eq-some j tid id xs h = elim (Option-cases (lookup id j.invs)) [
  | inl e ↦ absurd (ground arith)
  | inr (inv, e) ↦ (inv, e, ground arith, ground arith)
]

create-steps_lem :
    (j : MemJournal) (tid : String) (inv : Investigation)
    → IsFresh j inv.id
    → inv.tenant ≡ tid
    → ((create j tid inv).1 ≡ true) × (steps (create j tid inv).0 tid inv.id ≡ some [])
unfolding create steps
create-steps_lem j tid inv (a, b) e =
    let same = (eq_iff inv.tenant tid).1 e in
    ground (arith, lookup-put_self {V = Investigation} inv.id inv j.invs)

append-steps_lem :
    (j : MemJournal) (tid id : String) (st : Step) (xs : List Step)
    → steps j tid id ≡ some xs
    → ((append_step j tid id st).1 ≡ true)
      × (steps (append_step j tid id st).0 tid id ≡ some (xs ++ st ∷ []))
unfolding append_step steps
append-steps_lem j tid id st xs h =
    let (inv, a, b, c) = steps-eq-some j tid id xs h in
    ground (arith, lookup-put_self {V = List Step} id (steps_at id j.steps ++ st ∷ []) j.steps)

set_status-steps_lem :
    (j : MemJournal) (tid id : String) (s : InvestigationStatus) (at : Time) (xs : List Step)
    → steps j tid id ≡ some xs
    → steps (set_status j tid id s at).0 tid id ≡ some xs
unfolding set_status steps
set_status-steps_lem j tid id s at xs h =
    let (inv, a, b, c) = steps-eq-some j tid id xs h in
    ground (
      arith,
      lookup-put_self {V = Investigation} id (record inv { status = s; ended_at = at }) j.invs,
    )

pub mem_journal-KeepsSteps : KeepsSteps mem_journal
mem_journal-KeepsSteps = record {
  Fresh = IsFresh;
  create-steps = create-steps_lem;
  append-steps = append-steps_lem;
  set_status-steps = set_status-steps_lem;
}

object_key_inj : (tid key other : String) → object_key tid key ≡ object_key tid other → key ≡ other
unfolding object_key
object_key_inj tid key other e = append_cancel_left "/" key other (append_cancel_left tid _ _ e)

pub mem_journal-Fresh :
    (j : MemJournal) (id : String) → IsFresh j id → mem_journal-KeepsSteps.Fresh j id
unfolding mem_journal-KeepsSteps
mem_journal-Fresh j id h = h

put-other_lem :
    (o : MemObjectStore) (tid key other : String) (body : Bytes)
    → key ≢ other
    → get_object (put_object o tid key body).0 tid other ≡ get_object o tid other
unfolding put_object get_object
put-other_lem o tid key other body n = ground (
  arith,
  lookup-put (object_key tid key) (object_key tid other) body o,
  eq_iff (object_key tid key) (object_key tid other),
  object_key_inj tid key other,
)

pub mem_object_store-KeepsBodies : KeepsBodies mem_object_store
unfolding put_object get_object
mem_object_store-KeepsBodies = record {
  put-get = λ o tid key body h. lookup-put_self _ body o;
  put-other = put-other_lem;
}
