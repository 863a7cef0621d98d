-- ===== src/Remediate/Guard/Trail/Approvals.antt =====
-- guard.go: what Approve tells the audit log.
use mathlib.Core.List.{Memᴰ}
use mathlib.Core.List.Memᴰ
use tracing_bot.Prelude.{
  ℕ, String, ◌≡◌, refl, sym, subst, ◌∙◌, inl, inr, true, false, some, List, [], ◌∷◌, str_eq,
  if◌then◌else◌, eq_iff, arith, Bool-cases, some_inj,
}
use tracing_bot.Prelude.Bytes.{Bytes}
use tracing_bot.Prelude.Assoc.{lookup, lookup-put}
use tracing_bot.Remediate.Types.{Time, TenantId, Action, Policy, Subject, Result-cases}
use tracing_bot.Remediate.Audit.{append, AuditLog, StoredEvent}
use tracing_bot.Remediate.Guard.State.{
  Detail, text, moment, Deps, Guard, Reply, done, refused, stopped, audit, get,
}
use tracing_bot.Remediate.Guard.Approve.{
  ApprovalRequest, approve_commit, approve_override, approve_within, approve_proposed,
  approve_found, approve,
}
use tracing_bot.Remediate.Guard.Transitions.{after, Fits}
use tracing_bot.Remediate.Guard.Transitions.Approvals.{approve_found-after, approve_found-Fits}
use tracing_bot.Remediate.Guard.Runs.{get-eq-ok}
use tracing_bot.Remediate.Guard.Runs.TwoPerson.{is_cleared}
use tracing_bot.Remediate.Guard.Trail.Tame.{IsTame-lookup}

abbrev pub Marshal : Type 0
Marshal = List (String × Detail) → Bytes

-- The log has an entry of an approval of the action `id` of a tenant, by the approver.
pub record IsRecorded (f : Marshal) (log : AuditLog) (id owner approver : String) : Type 0 where
  pub entry : StoredEvent
  pub kept : Memᴰ entry log.entries
  pub tenant : entry.event.tenant ≡ owner
  pub actor : entry.event.actor ≡ approver
  pub action : entry.event.action ≡ "action_approved"
  pub until : Time
  pub payload : entry.event.payload ≡ f (("action_id", text id) ∷ ("expires_at", moment until) ∷ [])

audit-IsRecorded :
    (d : Deps) (k : ℕ) (g : Guard) (tid id by : String) (t : Time)
    → IsRecorded d.marshal
        (audit d k g tid by "action_approved"
          (("action_id", text id) ∷ ("expires_at", moment t) ∷ [])).audit_log
        id
        tid
        by
unfolding audit append
audit-IsRecorded d k g tid id by t = record {
  entry = _;
  kept = Memᴰ.append_right g.audit_log.entries (Memᴰ.head refl);
  tenant = refl;
  actor = refl;
  action = refl;
  until = t;
  payload = refl;
}

-- What an answer of `Approve` tells of the log.
abbrev pub Logs : Deps → String → String → String → Guard × Reply → Type 0
Logs d tid id by (g, done b) = (b.approved_by ≡ by) × IsRecorded d.marshal g.audit_log id tid by
Logs d tid id by (g, stopped b e) = is_cleared b.state ≡ false
Logs d tid id by (g, refused e) = Unit

module _ (d : Deps) (tid : TenantId) (id : String) (by : Subject) where
  approve_commit-Logs :
      (k : ℕ) (g : Guard) (pol : Policy) (a : Action)
      → Logs d tid id by.id (approve_commit d k g tid id by pol a)
  unfolding approve_commit
  approve_commit-Logs k g pol a = (refl, audit-IsRecorded d _ _ tid id by.id _)

  approve_override-Logs :
      (g : Guard) (req : ApprovalRequest) (pol : Policy) (a : Action)
      → Logs d tid id by.id (approve_override d g tid id by req pol a)
  unfolding approve_override
  approve_override-Logs g req pol a = grind (arith, approve_commit-Logs)

  approve_within-Logs :
      (g : Guard) (pol : Policy) (a : Action)
      → Logs d tid id by.id (approve_within d g tid id by pol a)
  unfolding approve_within
  approve_within-Logs g pol a = grind (arith, approve_commit-Logs)

  approve_proposed-Logs :
      (g : Guard) (req : ApprovalRequest) (a : Action)
      → Logs d tid id by.id (approve_proposed d g tid id by req a)
  unfolding approve_proposed
  approve_proposed-Logs g req a = grind (arith, approve_override-Logs, approve_within-Logs)

  pub approve_found-Logs :
      (g : Guard) (req : ApprovalRequest) (a : Action)
      → Logs d tid id by.id (approve_found d g tid id by req a)
  unfolding approve_found
  approve_found-Logs g req a = grind (arith, approve_proposed-Logs)

-- What `Approve` clears, it records.
reply-IsRecorded :
    (d : Deps) (g : Guard) (tid : TenantId) (j by id : String) (a x b : Action) (r : Guard × Reply)
    → Logs d tid j by r
    → Fits d a r.1
    → a.tenant ≡ tid
    → r.0.actions ≡ after j r.1 g.actions
    → lookup id g.actions ≡ some x
    → is_cleared x.state ≡ false
    → lookup id r.0.actions ≡ some b
    → is_cleared b.state ≡ true
    → IsRecorded d.marshal r.0.audit_log id b.tenant b.approved_by
reply-IsRecorded d g tid j by id a x b (h, refused e) s f t m l c l' k =
    let n = IsTame-lookup g h.actions id x b (inl m) l c l' in cc (n, k)
reply-IsRecorded d g tid j by id a x b (h, stopped y e) s f t m l c l' k =
    let n = IsTame-lookup g h.actions id x b (inr (j, y, m, inl s)) l c l' in cc (n, k)
reply-IsRecorded d g tid j by id a x b (h, done y) s f t m l c l' k =
    let now : (if str_eq j id then some y else lookup id g.actions) ≡ some b =
      rw (m, lookup-put) at l' in
    elim (Bool-cases (str_eq j id)) [
      | inr differ ↦ let one : x ≡ b = some_inj (sym l ∙ rw differ at now) in cc (one, c, k)
      | inl same ↦
          let one : y ≡ b = some_inj (rw same at now) in
          subst (λ i. IsRecorded d.marshal h.audit_log i b.tenant b.approved_by)
            ((eq_iff j id).0 same)
            (subst (λ (z : Action). IsRecorded d.marshal h.audit_log j z.tenant z.approved_by) one
              (subst (λ w. IsRecorded d.marshal h.audit_log j w y.approved_by)
                (sym t ∙ sym f.tenant)
                (subst (λ w. IsRecorded d.marshal h.audit_log j tid w) (sym s.0) s.1)))
    ]

pub approve-IsRecorded :
    (d : Deps) (g : Guard) (tid : TenantId) (j : String) (by : Subject) (req : ApprovalRequest)
    (id : String) (x b : Action)
    → lookup id g.actions ≡ some x
    → is_cleared x.state ≡ false
    → lookup id (approve d g tid j by req).0.actions ≡ some b
    → is_cleared b.state ≡ true
    → IsRecorded d.marshal (approve d g tid j by req).0.audit_log id b.tenant b.approved_by
unfolding approve
approve-IsRecorded d g tid j by req id x b l c l' k = elim (Result-cases (get g tid j)) [
  | inr (e, q) ↦ let one : x ≡ b = some_inj (sym l ∙ rw (q, approve) at l') in cc (one, c, k)
  | inl (a, q) ↦
      rw (q, approve)
        (reply-IsRecorded d g tid j by.id id a x b (approve_found d g tid j by req a)
          (approve_found-Logs d tid j by g req a) (approve_found-Fits d g tid j by req a)
          (get-eq-ok g tid j q).1 (approve_found-after d g tid j by req a) l c
          (rw (q, approve) at l') k)
]
