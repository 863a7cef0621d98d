-- ===== src/Remediate/Guard/Runs/Sends.antt =====
-- guard.go: the end of `Execute`, from the payload to the request.
use tracing_bot.Prelude.{String, ◌≡◌, refl, inl, inr, List, ◌∷◌, arith}
use tracing_bot.Prelude.Bytes.{Bytes}
use tracing_bot.Remediate.Types.{
  TenantId, Action, Subject, ok, err, Result, Result-cases, Verb, Request,
}
use tracing_bot.Remediate.Executor.{verb_for_action, stdin_payload, check_payload_scope}
use tracing_bot.Remediate.Guard.State.{Deps, Guard, audit, store_idempotency}
use tracing_bot.Remediate.Guard.Execute.{to_request, execute_answer, execute_call, execute_payload}

-- The list of requests is left alone, or gets one request of which `P` holds.
pub data Sends (P : Action → Request → Type 0) (l l' : List (Action × Request)) : Type 0 where
  quiet : l' ≡ l → Sends P l l'
  sent : (x : Action) (r : Request) → P x r → l' ≡ (x, r) ∷ l → Sends P l l'

pub Sends-map :
    (P Q : Action → Request → Type 0) {l l' : List (Action × Request)}
    → ((x : Action) (r : Request) → P x r → Q x r)
    → Sends P l l'
    → Sends Q l l'
Sends-map P Q f (quiet e) = quiet e
Sends-map P Q f (sent x r p e) = sent x r (f x r p) e

-- The request is the one of the action's type and target, and its payload is in scope.
pub record IsPrepared (d : Deps) (x : Action) (r : Request) : Type 0 where
  pub verb : Verb
  pub verb_of : verb_for_action x.proposal.action_type ≡ ok verb
  pub stdin : Bytes
  pub payload : stdin_payload d.json x ≡ ok stdin
  pub scope : check_payload_scope d.json d.path_match x.proposal stdin ≡ ok tt
  pub request : r ≡ to_request x verb stdin

-- What a version of an action keeps of an earlier one on the way to the executor.
pub record Follows (a x : Action) : Type 0 where
  pub approver : x.approved_by ≡ a.approved_by
  pub proposer : x.proposed_by ≡ a.proposed_by
  pub type_kept : x.proposal.action_type ≡ a.proposal.action_type
  pub executor : x.executor_kind ≡ a.executor_kind

module _ (d : Deps) (tid : TenantId) (id : String) (by : Subject) (idem : String) where
  calls-execute_answer :
      (g : Guard) (a : Action) (res : Result Bytes)
      → (execute_answer d g tid id by idem a res).0.calls ≡ g.calls
  unfolding execute_answer audit store_idempotency
  calls-execute_answer g a (ok out) = ground arith
  calls-execute_answer g a (err e) = ground arith

  pub payload-Sends :
      (g : Guard) (x : Action) (exec : Request → Result Bytes) (verb : Verb)
      → verb_for_action x.proposal.action_type ≡ ok verb
      → Sends
          (λ y r. (y ≡ x) × IsPrepared d y r)
          g.calls
          (execute_payload d g tid id by idem x exec verb).0.calls
  unfolding execute_payload execute_call audit
  payload-Sends g x exec verb v = elim (Result-cases (stdin_payload d.json x)) [
    | inr (y, s) ↦ quiet (rw (s, execute_payload))
    | inl (stdin, s) ↦
        elim (Result-cases (check_payload_scope d.json d.path_match x.proposal stdin)) [
          | inr (y, k) ↦ quiet (rw (s, execute_payload, k))
          | inl (u, k) ↦
              sent x (to_request x verb stdin)
                (
                  refl,
                  record {
                    verb = verb;
                    verb_of = v;
                    stdin = stdin;
                    payload = s;
                    scope = k;
                    request = refl;
                  },
                )
                (rw (s, execute_payload, k) (calls-execute_answer _ _ _))
        ]
  ]
