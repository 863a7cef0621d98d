-- ===== src/Remediate/Audit/Verify.antt =====
-- audit.go: `VerifyChain` on the logs that `Append` builds, and on tampered ones.
use native.Mathlib.Decide.{dec_lt}
use text.Mathlib.TextPositions.{eq_refl}
use tracing_bot.Prelude.{
  ℕ, suc, ◌+◌, ◌≤◌, ◌<◌, ◌≡◌, refl, subst, inl, inr, true, ◌&&◌, List, [], ◌∷◌, ◌++◌, arith, ◌==◌,
  str_eq, eq_iff, Bool-cases, if◌then◌else◌,
}
use tracing_bot.Prelude.Assoc.{lookup, lookup-put}
use tracing_bot.Prelude.Bytes.{Bytes, bytes_eq_iff}
use tracing_bot.Remediate.Types.{TenantId}
use tracing_bot.Remediate.Audit.{
  Event, StoredEvent, AuditLog, new_audit_log, intact, seq_of, chain_hash, append, next_entry,
  skipped, verify_loop, seed, verify_chain,
}
use tracing_bot.Remediate.Audit.Chain.{
  count, IsChain, done, own, foreign, IsChain-append_own, IsChain-append_foreign,
}

-- The invariant of a log: every tenant has a chain, and its counter is the chain's length.
pub record IsSound (sha : Bytes → Bytes) (l : AuditLog) : Type 0 where
  pub chained : (tid : TenantId) → IsChain sha tid 0 [] l.entries
  pub counted : (tid : TenantId) → seq_of (lookup tid l.seqs) ≡ count tid l.entries

pub new_audit_log-IsSound : (sha : Bytes → Bytes) → IsSound sha new_audit_log
unfolding new_audit_log lookup count
new_audit_log-IsSound sha = record { chained = λ tid. done; counted = λ tid. refl }

count-append :
    (tid : TenantId) (es : List StoredEvent) (se : StoredEvent)
    → count tid (es ++ se ∷ [])
      ≡ (if str_eq se.tenant tid then suc (count tid es) else count tid es)
unfolding count
count-append tid [] se = refl
count-append tid (x ∷ xs) se = ground (arith, count-append tid xs se)

-- `Append` keeps the invariant.
pub append-IsSound :
    (sha : Bytes → Bytes) (l : AuditLog) (e : Event)
    → IsSound sha l
    → IsSound sha (append sha l e).0
unfolding append
append-IsSound sha l e s = record {
  chained = λ tid. elim (Bool-cases (str_eq e.tenant tid)) [
    | inl same ↦
        subst (λ t. IsChain sha t 0 [] (append sha l e).0.entries) ((eq_iff e.tenant tid).0 same)
          (IsChain-append_own sha e.tenant (next_entry sha l e) (s.chained e.tenant)
            (eq_refl e.tenant) (omega (arith, s.counted e.tenant)) refl)
    | inr differ ↦ IsChain-append_foreign sha tid (next_entry sha l e) (s.chained tid) differ
  ];
  counted = λ tid. ground (
    arith,
    count-append tid l.entries (next_entry sha l e),
    lookup-put e.tenant tid (seq_of (lookup e.tenant l.seqs) + 1) l.seqs,
    s.counted tid,
    eq_iff e.tenant tid,
  );
}

module _ (sha : Bytes → Bytes) (tid : TenantId) (from to : ℕ) where
  -- Once `to` is reached, everything is skipped.
  verify_loop_past :
      {n : ℕ} {prev : Bytes} {es : List StoredEvent} (p : Bytes)
      → IsChain sha tid n prev es
      → 0 < to
      → to ≤ suc n
      → verify_loop sha tid from to p es ≡ intact
  unfolding verify_loop
  verify_loop_past p done a b = refl
  verify_loop_past p (own {se = se} {rest} t s h c) a b = ground (arith, verify_loop_past p c a)
  verify_loop_past p (foreign {se = se} {rest} t c) a b = ground (arith, verify_loop_past p c a)

  verify_loop_within :
      {n : ℕ} {prev : Bytes} {es : List StoredEvent}
      → IsChain sha tid n prev es
      → from ≤ suc n
      → verify_loop sha tid from to prev es ≡ intact
  unfolding verify_loop
  verify_loop_within done a = refl
  verify_loop_within (own {prev = prev} {se = se} {rest} t s h c) a = ground (
    arith,
    verify_loop_within c,
    verify_loop_past prev c,
    bytes_eq_iff (chain_hash sha prev se.seq se.event) se.hash,
  )
  verify_loop_within (foreign {se = se} {rest} t c) a = ground (arith, verify_loop_within c a)

  pub seed_past :
      {n : ℕ} {prev : Bytes} {es : List StoredEvent} (p : Bytes)
      → IsChain sha tid n prev es
      → from ≤ suc n
      → seed tid from p es ≡ p
  unfolding seed
  seed_past p done a = refl
  seed_past p (own {se = se} {rest} t s h c) a = ground (arith, seed_past p c)
  seed_past p (foreign {se = se} {rest} t c) a = ground (arith, seed_past p c)

  -- A skipped entry only moves the seed on.
  pub verify_skip :
      (p : Bytes) (se : StoredEvent) (rest : List StoredEvent)
      → skipped sha tid from to se ≡ true
      → verify_loop sha tid from to (seed tid from p (se ∷ rest)) (se ∷ rest)
        ≡ verify_loop sha tid from to
            (seed tid from
              (if str_eq se.tenant tid && (se.seq + 1) == from then se.hash else p)
              rest)
            rest
  unfolding verify_loop seed
  verify_skip p se rest h = rw h

  verify_seeded :
      {n : ℕ} {prev : Bytes} {es : List StoredEvent} (p : Bytes)
      → IsChain sha tid n prev es
      → (from ≤ suc n → p ≡ prev)
      → verify_loop sha tid from to (seed tid from p es) es ≡ intact
  verify_seeded p done a = unfold verify_loop in refl
  verify_seeded {n} p (own {se = se} {rest} t s h c) a = elim (dec_lt (suc n) from) [
    | yes early ↦
        let skip : skipped sha tid from to se ≡ true = ground arith in
        rw (verify_skip p se rest skip) (verify_seeded _ c (λ b. ground arith))
    | no late ↦
        let here = own {se = se} {rest = rest} t s h c in
        rw (seed_past p here (omega arith), a (omega arith)) (verify_loop_within here (omega arith))
  ]
  verify_seeded p (foreign {se = se} {rest} t c) a =
      rw (verify_skip p se rest (ground arith)) (verify_seeded _ c (λ b. ground (arith, a)))

-- A sound log verifies for every tenant and over every range.
pub verify_chain_of_IsSound :
    (sha : Bytes → Bytes) (l : AuditLog) (tid : TenantId) (from to : ℕ)
    → IsSound sha l
    → verify_chain sha l tid from to ≡ intact
unfolding verify_chain
verify_chain_of_IsSound sha l tid from to s =
    verify_seeded sha tid from to [] (s.chained tid) (λ _. refl)

-- The log after some events, oldest first.
unfoldable pub append_all : (Bytes → Bytes) → AuditLog → List Event → AuditLog
append_all sha l [] = l
append_all sha l (e ∷ es) = append_all sha (append sha l e).0 es

pub append_all-IsSound :
    (sha : Bytes → Bytes) (l : AuditLog) (es : List Event)
    → IsSound sha l
    → IsSound sha (append_all sha l es)
unfolding append_all
append_all-IsSound sha l [] s = s
append_all-IsSound sha l (e ∷ es) s =
    append_all-IsSound sha (append sha l e).0 es (append-IsSound sha l e s)

-- Whatever events are appended to a new log, and whatever the hash function is, `VerifyChain` reports
-- an intact chain for every tenant and for every range of sequence numbers.
pub verify_chain-append_all :
    (sha : Bytes → Bytes) (es : List Event) (tid : TenantId) (from to : ℕ)
    → verify_chain sha (append_all sha new_audit_log es) tid from to ≡ intact
verify_chain-append_all sha es tid from to =
    verify_chain_of_IsSound sha (append_all sha new_audit_log es) tid from to
      (append_all-IsSound sha new_audit_log es (new_audit_log-IsSound sha))
