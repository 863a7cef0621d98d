-- ===== src/Remediate/Guard/Idempotency/Proposals.antt =====
-- guard.go: `Propose` sent twice with one idempotency key.
use tracing_bot.Prelude.{
  eq_iff, String, ◌≡◌, ◌≢◌, sym, ◌∙◌, inl, inr, false, str_eq, arith, Bool-cases,
}
use tracing_bot.Prelude.Assoc.{Assoc, put, lookup-put_self}
use tracing_bot.Prelude.Int.{pos, leb_ℤ}
use tracing_bot.Remediate.Types.{
  TenantId, ActionProposal, Action, Policy, Subject, Error, idempotency_key_reused, Result-cases,
}
use tracing_bot.Remediate.Validate.{validate_proposal, check_allowlists}
use tracing_bot.Remediate.Guard.State.{
  clash, budget_used, budget_cap, get_policy, Deps, Guard, Reply, fresh, done, refused, IdemRecord,
  ApiRequest, proposal, idem_key, check_idempotency, store_idempotency, audit,
}
use tracing_bot.Remediate.Guard.Propose.{
  record_proposal, propose_resolved, resolve_with, propose_fresh, propose,
}
use tracing_bot.Remediate.Guard.Idempotency.{fresh_given}

module _ (d : Deps) (g : Guard) (tid : TenantId) (by : Subject) (idem : String) where
  -- A proposal that was accepted is on record under the hash of its stamped form.
  abbrev Accepted : Guard × Reply → Type 0
  Accepted r =
      (a : Action)
      → r.1 ≡ done a
      → (a.proposal.id ≡ d.action_id g.seq)
        × (r.0.idem
            ≡ put (idem_key tid "propose" idem)
                (record { hash = d.request_hash (proposal a.proposal); action = a }) g.idem)

  Accepted-record :
      str_eq idem "" ≡ false → (p : ActionProposal) → Accepted (record_proposal d g tid p by idem)
  unfolding record_proposal store_idempotency audit
  Accepted-record given p a h = rw (given) (ground arith)

  Accepted-refused : (h : Guard) (e : Error) → Accepted (h, refused e)
  Accepted-refused h e a q = cc

  Accepted-resolved :
      str_eq idem "" ≡ false
      → (p : ActionProposal) (pol : Policy) → Accepted (propose_resolved d g tid p pol by idem)
  unfolding propose_resolved
  Accepted-resolved given p pol = elim (Result-cases (check_allowlists d.path_match p pol)) [
    | inr (e, c) ↦ rw (c, propose_resolved) (Accepted-refused g e)
    | inl (u, c) ↦
        elim (Bool-cases
          (leb_ℤ (budget_cap g pol) (pos (budget_used tid p.incident_id g.actions)))) [
            | inl full ↦ rw (c, propose_resolved, full) (λ a h. cc)
            | inr room ↦ rw (c, propose_resolved, room) (Accepted-record given p)
          ]
  ]

  Accepted-fresh :
      str_eq idem "" ≡ false → (p : ActionProposal) → Accepted (propose_fresh d g tid p by idem)
  unfolding propose_fresh
  Accepted-fresh given p = elim (Result-cases (get_policy d g tid)) [
    | inr (e, q) ↦ rw (q, propose_fresh) (Accepted-refused g e)
    | inl (pol, q) ↦ elim (Result-cases (validate_proposal p pol)) [
      | inr (e, v) ↦ rw (q, propose_fresh, v) (Accepted-refused g e)
      | inl (u, v) ↦ elim (Result-cases (resolve_with d.resolver tid p.target)) [
        | inr (e, r) ↦ rw (q, propose_fresh, v, r) (λ a h. cc)
        | inl (t, r) ↦
            rw (q, propose_fresh, v, r) (Accepted-resolved given (record p { target = t }) pol)
      ]
    ]
  ]

reused_clash :
    (d d' : Deps) (h : Guard) (m : Assoc IdemRecord) (tid : TenantId) (idem : String)
    (req req' : ApiRequest) (a : Action)
    → str_eq idem "" ≡ false
    → d.request_hash req' ≢ d'.request_hash req
    → h.idem
      ≡ put (idem_key tid "propose" idem) (record { hash = d.request_hash req'; action = a }) m
    → check_idempotency d' h tid "propose" idem req ≡ clash idempotency_key_reused
unfolding check_idempotency
reused_clash d d' h m tid idem req req' a given ne e =
    rw (given, e, lookup-put_self)
      (ground (arith, eq_iff (d.request_hash req') (d'.request_hash req)))

-- After a `Propose` that opened an action, sending the very same proposal again with the same key is
-- refused as a key that is reused for another request, if the hash tells proposals with different
-- ids apart and the proposal did not carry the id that `Propose` drew.
pub propose-replay :
    (d : Deps) (g : Guard) (tid : TenantId) (p : ActionProposal) (by by' : Subject) (idem : String)
    (a : Action)
    → ((q q' : ActionProposal)
        → d.request_hash (proposal q) ≡ d.request_hash (proposal q')
        → q.id ≡ q'.id)
    → p.id ≢ d.action_id g.seq
    → check_idempotency d g tid "propose" idem (proposal p) ≡ fresh
    → (propose d g tid p by idem).1 ≡ done a
    → (propose d (propose d g tid p by idem).0 tid p by' idem).1 ≡ refused idempotency_key_reused
unfolding propose
propose-replay d g tid p by by' idem a inj unstamped new accepted =
    let given = fresh_given d g tid "propose" idem (proposal p) new in
    let r = propose_fresh d g tid p by idem in
    let (drawn, stored) =
      Accepted-fresh d g tid by idem given p a (rw (new, propose) at accepted) in
    let differ : d.request_hash (proposal a.proposal) ≢ d.request_hash (proposal p) =
      λ e. unstamped (sym (inj a.proposal p e) ∙ drawn) in
    rw (
      new,
      propose,
      reused_clash d d r.0 g.idem tid idem (proposal p) (proposal a.proposal) a given differ stored,
    )
