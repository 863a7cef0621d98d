-- ===== src/Remediate/Guard/Idempotency/Executions.antt =====
-- guard.go: `Execute` sent twice with one idempotency key.
use text.Mathlib.TextPositions.{eq_refl}
use tracing_bot.Prelude.{
  eq_iff, String, ◌≡◌, ◌≢◌, refl, sym, ap, subst, ◌∙◌, ◌⊎◌, inl, inr, Bool, true, false, Option,
  none, some, str_eq, arith, Option-cases,
}
use tracing_bot.Prelude.Assoc.{Assoc, put, lookup-put, lookup-put_self}
use tracing_bot.Prelude.Bytes.{Bytes}
use tracing_bot.Remediate.Types.{
  TenantId, Action, Subject, Request, Verb, ok, err, Result, Result-cases,
}
use tracing_bot.Remediate.Guard.State.{
  Deps, Guard, Reply, hit, done, stopped, refused, IdemRecord, IdemCheck-cases, ApiRequest,
  action_ref, idem_key, check_idempotency, store_idempotency, audit, get,
}
use tracing_bot.Remediate.Guard.Execute.{
  execute_answer, execute_call, execute_payload, execute_run, execute_snapshot, execute_allowed,
  execute_resolved, execute_fresh, execute,
}
use tracing_bot.Remediate.Guard.Transitions.{after, Fits}
use tracing_bot.Remediate.Guard.Transitions.Executions.{execute_fresh-after, execute_fresh-Fits}
use tracing_bot.Remediate.Guard.Idempotency.{fresh_given}

-- The action that a reply shows.
abbrev shown : Reply → Option Action
shown (done b) = some b
shown (stopped b e) = some b
shown (refused e) = none

abbrev is_shown : Option Action → Bool
is_shown none = false
is_shown (some b) = true

abbrev record_shown :
    Deps → String → ApiRequest → Option Action → Assoc IdemRecord → Assoc IdemRecord
record_shown d key req none m = m
record_shown d key req (some b) m = put key (record { hash = d.request_hash req; action = b }) m

module _ (d : Deps) (tid : TenantId) (id : String) (by : Subject) (idem : String)
    (given : str_eq idem "" ≡ false) where
  -- Either no request was made, or the reply's action is on record under the key.
  abbrev Recorded : Guard → Guard × Reply → Type 0
  Recorded g r =
      (r.0.calls ≡ g.calls)
      ⊎ ((is_shown (shown r.1) ≡ true)
          × (r.0.idem
              ≡ record_shown d (idem_key tid "execute" idem) (action_ref id) (shown r.1) g.idem))

  Recorded-answer :
      (g : Guard) (a : Action) (res : Result Bytes)
      → let r = execute_answer d g tid id by idem a res in
        (is_shown (shown r.1) ≡ true)
        × (r.0.idem
            ≡ record_shown d (idem_key tid "execute" idem) (action_ref id) (shown r.1) g.idem)
  unfolding execute_answer audit store_idempotency
  Recorded-answer g a (ok out) = (refl, rw given)
  Recorded-answer g a (err e) = (refl, rw given)

  Recorded-payload :
      (g : Guard) (a : Action) (exec : Request → Result Bytes) (verb : Verb)
      → Recorded g (execute_payload d g tid id by idem a exec verb)
  unfolding execute_payload execute_call audit
  Recorded-payload g a exec verb = grind (arith, Recorded-answer)

  Recorded-run : (g : Guard) (a : Action) → Recorded g (execute_run d g tid id by idem a)
  unfolding execute_run audit
  Recorded-run g a = grind (arith, Recorded-payload)

  Recorded-snapshot : (g : Guard) (a : Action) → Recorded g (execute_snapshot d g tid id by idem a)
  unfolding execute_snapshot audit
  Recorded-snapshot g a = grind (arith, Recorded-run)

  Recorded-allowed : (g : Guard) (a : Action) → Recorded g (execute_allowed d g tid id by idem a)
  unfolding execute_allowed audit
  Recorded-allowed g a = grind (arith, Recorded-snapshot)

  Recorded-resolved : (g : Guard) (a : Action) → Recorded g (execute_resolved d g tid id by idem a)
  unfolding execute_resolved audit
  Recorded-resolved g a = grind (arith, Recorded-allowed)

  Recorded-fresh : (g : Guard) (a : Action) → Recorded g (execute_fresh d g tid id by idem a)
  unfolding execute_fresh audit
  Recorded-fresh g a = grind (arith, Recorded-resolved)

-- The action is found again after a call that has stored its version `b`.
get-after :
    (d : Deps) (g h : Guard) (tid : TenantId) (id : String) (a b : Action) (r : Reply)
    → get g tid id ≡ ok a
    → h.actions ≡ after id r g.actions
    → Fits d a r
    → shown r ≡ some b
    → get h tid id ≡ ok b
unfolding get
get-after d g h tid id a b (refused e) l m f s = cc
get-after d g h tid id a b (done c) l m f s =
    rw (m, lookup-put, eq_refl id) (ground (arith, eq_iff a.tenant tid, eq_iff c.tenant tid))
get-after d g h tid id a b (stopped c e) l m f s =
    rw (m, lookup-put, eq_refl id) (ground (arith, eq_iff a.tenant tid, eq_iff c.tenant tid))

hit_after :
    (d d' : Deps) (h : Guard) (m : Assoc IdemRecord) (tid : TenantId) (idem : String)
    (req : ApiRequest) (b : Action)
    → str_eq idem "" ≡ false
    → d'.request_hash req ≡ d.request_hash req
    → h.idem ≡ record_shown d (idem_key tid "execute" idem) req (some b) m
    → check_idempotency d' h tid "execute" idem req ≡ hit b
unfolding check_idempotency
hit_after d d' h m tid idem req b given same e =
    rw (given, e, lookup-put_self, same, eq_refl (d.request_hash req))

module _ (d d' : Deps) (g : Guard) (tid : TenantId) (id : String) (by by' : Subject)
    (idem : String) where
  -- What a second `Execute` with the same key does after a first one with the outcome `r`.
  abbrev pub Replays : Guard × Reply → Type 0
  Replays r = (b : Action) × (shown r.1 ≡ some b) × (execute d' r.0 tid id by' idem ≡ (r.0, done b))

  replay_fresh :
      (a : Action)
      → str_eq idem "" ≡ false
      → d'.request_hash (action_ref id) ≡ d.request_hash (action_ref id)
      → get g tid id ≡ ok a
      → (execute_fresh d g tid id by idem a).0.calls ≢ g.calls
      → Replays (execute_fresh d g tid id by idem a)
  unfolding execute
  replay_fresh a given same l made = elim (Recorded-fresh d tid id by idem given g a) [
    | inl quiet ↦ absurd (made quiet)
    | inr (is, stored) ↦
        let r = execute_fresh d g tid id by idem a in
        elim (Option-cases (shown r.1)) [
          | inl nothing ↦ cc (nothing, is)
          | inr (b, s) ↦ (
            b,
            s,
            rw (
              get-after d g r.0 tid id a b r.1 l (execute_fresh-after d tid id by idem g a)
                  (execute_fresh-Fits d tid id by idem g a) s,
              execute,
              hit_after d d' r.0 g.idem tid idem (action_ref id) b given same (
                  stored
                  ∙ ap (λ o. record_shown d (idem_key tid "execute" idem) (action_ref id) o g.idem)
                      s),
            ),
          )
        ]
  ]

  execute_cases :
      ((execute d g tid id by idem).0 ≡ g)
      ⊎ ((a : Action) × (get g tid id ≡ ok a)
          × (str_eq idem "" ≡ false)
          × (execute d g tid id by idem ≡ execute_fresh d g tid id by idem a))
  unfolding execute
  execute_cases = elim (Result-cases (get g tid id)) [
    | inr (e, l) ↦ inl (rw (l, execute))
    | inl (a, l) ↦
        elim (IdemCheck-cases (check_idempotency d g tid "execute" idem (action_ref id))) [
          | inr (inl (c, i)) ↦ inl (rw (l, execute, i))
          | inr (inr (e, i)) ↦ inl (rw (l, execute, i))
          | inl i ↦
              inr (a, l, fresh_given d g tid "execute" idem (action_ref id) i, rw (l, execute, i))
        ]
  ]

  -- After an `Execute` that handed a request to an executor, a second `Execute` of the same action
  -- with the same key changes nothing, makes no request, and returns the action that the first one
  -- showed, with no error, as long as the hash of the request is the same.
  pub execute-replay :
      d'.request_hash (action_ref id) ≡ d.request_hash (action_ref id)
      → (execute d g tid id by idem).0.calls ≢ g.calls
      → Replays (execute d g tid id by idem)
  execute-replay same made = elim execute_cases [
    | inl quiet ↦ absurd (made (ap (λ (h : Guard). h.calls) quiet))
    | inr (a, l, given, e) ↦
        subst Replays (sym e)
          (replay_fresh a given same l (λ q. made (ap (λ (r : Guard × Reply). r.0.calls) e ∙ q)))
  ]
