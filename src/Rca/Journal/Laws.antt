-- ===== src/Rca/Journal/Laws.antt =====
-- What the engine relies on: a journal that keeps the steps of an investigation in their order, and a
-- store that keeps a body until its key is written again.
use tracing_bot.Prelude.{String, true, some, List, [], ◌∷◌, ◌++◌, ◌≡◌, ◌≢◌}
use tracing_bot.Prelude.Bytes.{Bytes}
use tracing_bot.Rca.Types.{Time, InvestigationStatus, Step, Investigation}
use tracing_bot.Rca.Journal.{Journal, ObjectPutter}

-- `Fresh j id`: the journal has nothing under the id.
pub record KeepsSteps {J : Type 0} (jn : Journal J) : Type 1 where
  pub Fresh : J → String → Type 0
  pub create-steps :
      (j : J) (tid : String) (inv : Investigation)
      → Fresh j inv.id
      → inv.tenant ≡ tid
      → ((jn.create j tid inv).1 ≡ true) × (jn.steps (jn.create j tid inv).0 tid inv.id ≡ some [])
  pub append-steps :
      (j : J) (tid id : String) (st : Step) (xs : List Step)
      → jn.steps j tid id ≡ some xs
      → ((jn.append_step j tid id st).1 ≡ true)
        × (jn.steps (jn.append_step j tid id st).0 tid id ≡ some (xs ++ st ∷ []))
  pub set_status-steps :
      (j : J) (tid id : String) (s : InvestigationStatus) (at : Time) (xs : List Step)
      → jn.steps j tid id ≡ some xs
      → jn.steps (jn.set_status j tid id s at).0 tid id ≡ some xs

pub record KeepsBodies {O : Type 0} (on : ObjectPutter O) : Type 0 where
  pub put-get :
      (o : O) (tid key : String) (body : Bytes)
      → (on.put_object o tid key body).1 ≡ true
      → on.get_object (on.put_object o tid key body).0 tid key ≡ some body
  pub put-other :
      (o : O) (tid key other : String) (body : Bytes)
      → key ≢ other
      → on.get_object (on.put_object o tid key body).0 tid other ≡ on.get_object o tid other
