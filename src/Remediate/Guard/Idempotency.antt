-- ===== src/Remediate/Guard/Idempotency.antt =====
-- guard.go: what a repeated request with the same idempotency key does.
use text.Mathlib.TextPositions.{eq_refl}
use tracing_bot.Prelude.{
  eq_iff, ℕ, String, ◌≡◌, ◌≢◌, refl, sym, ap, subst, ◌∙◌, ◌⊎◌, inl, inr, Bool, true, false, Option,
  none, some, List, ◌∷◌, str_eq, arith, Bool-cases, Option-cases, if◌then◌else◌,
}
use tracing_bot.Prelude.Assoc.{Assoc, lookup, put, lookup-put, lookup-put_self}
use tracing_bot.Prelude.Int.{pos, leb_ℤ}
use tracing_bot.Prelude.Bytes.{Bytes}
use tracing_bot.Remediate.Types.{
  TenantId, ActionProposal, Action, Policy, Subject, Request, Verb, Error, idempotency_key_reused,
  ok, err, Result, Result-cases,
}
use tracing_bot.Remediate.Validate.{validate_proposal, check_allowlists}
use tracing_bot.Remediate.Guard.State.{
  clash, budget_used, budget_cap, get_policy, Deps, Guard, Reply, fresh, hit, done, stopped,
  refused, IdemRecord, IdemCheck-cases, ApiRequest, proposal, action_ref, idem_key,
  check_idempotency, store_idempotency, audit, get,
}
use tracing_bot.Remediate.Guard.Propose.{
  stamp, new_action, record_proposal, propose_resolved, resolve_with, propose_fresh, propose,
}
use tracing_bot.Remediate.Guard.Execute.{
  execute_answer, execute_call, execute_payload, execute_run, execute_snapshot, execute_allowed,
  execute_resolved, execute_fresh, execute,
}
use tracing_bot.Remediate.Guard.Transitions.{IsStep, after, Fits}
use tracing_bot.Remediate.Guard.Transitions.Executions.{execute_fresh-after, execute_fresh-Fits}
pub mod Executions
pub mod Proposals

pub fresh_given :
    (d : Deps) (g : Guard) (tid : TenantId) (endpoint idem : String) (req : ApiRequest)
    → check_idempotency d g tid endpoint idem req ≡ fresh
    → str_eq idem "" ≡ false
unfolding check_idempotency
fresh_given d g tid endpoint idem req h = ground arith
