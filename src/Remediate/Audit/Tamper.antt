-- ===== src/Remediate/Audit/Tamper.antt =====
-- audit.go: what `VerifyChain` detects of a payload changed in place, and what it cannot detect.
use mathlib.Core.List.{append_cancel_left, append_cancel_right}
use native.Mathlib.Decide.{dec_lt}
use tracing_bot.Prelude.{
  ℕ, suc, ◌+◌, ◌≤◌, ◌<◌, ◌≡◌, ◌≢◌, refl, sym, ◌⊎◌, inl, inr, false, ◌&&◌, List, [], ◌∷◌, arith,
  ◌==◌, str_eq, Bool-cases, if◌then◌else◌, Option, some, none,
}
use tracing_bot.Prelude.Bytes.{Bytes, bytes_eq, bytes_eq_iff, be64, utf8}
use tracing_bot.Remediate.Types.{TenantId}
use tracing_bot.Remediate.Audit.{
  Event, StoredEvent, AuditLog, broken_at, chain_hash, verify_loop, seed, verify_chain, preimage,
  unix_nano, event_bytes, tamper_for_test, tamper_entries,
}
use tracing_bot.Remediate.Audit.Chain.{IsChain, done, own, foreign}
use tracing_bot.Remediate.Audit.Verify.{IsSound, seed_past}

-- The payload stored at a sequence number of a tenant.
unfoldable pub payload_at : TenantId → ℕ → List StoredEvent → Option Bytes
payload_at tid seq [] = none
payload_at tid seq (se ∷ rest) =
    let later = payload_at tid seq rest in
    if str_eq se.tenant tid && se.seq == seq then some se.event.payload else later

preimage_payload :
    (prev : Bytes) (seq : ℕ) (e : Event) (p : Bytes)
    → preimage prev seq e ≡ preimage prev seq (record e { payload = p })
    → e.payload ≡ p
unfolding preimage
preimage_payload prev seq e p h =
    let time = be64 (unix_nano e.timestamp) in
    let after_prev = append_cancel_left prev _ _ h in
    let after_seq = append_cancel_left (be64 seq) _ _ after_prev in
    let fields = append_cancel_right _ _ time after_seq in
    let after_tenant = append_cancel_left (utf8 e.tenant) _ _ fields in
    let after_actor = append_cancel_left (utf8 e.actor) _ _ after_tenant in
    append_cancel_left (utf8 e.action) _ _ after_actor

-- The tenant's numbers go up along its chain.
payload_at_later :
    (sha : Bytes → Bytes) (tid : TenantId) (seq : ℕ) {n : ℕ} {prev : Bytes} {es : List StoredEvent}
    (old : Bytes)
    → IsChain sha tid n prev es
    → payload_at tid seq es ≡ some old
    → n < seq
unfolding payload_at
payload_at_later sha tid seq old done h = cc
payload_at_later sha tid seq old (own {se = se} {rest} t s e c) h =
    ground (arith, payload_at_later sha tid seq old c)
payload_at_later sha tid seq old (foreign {se = se} {rest} t c) h =
    ground (arith, payload_at_later sha tid seq old c)

module _ (sha : Bytes → Bytes) (sha-injective : (a b : Bytes) → sha a ≡ sha b → a ≡ b) where
  -- A payload that differs gives another hash.
  tampered_hash :
      (prev : Bytes) (seq : ℕ) (e : Event) (p : Bytes)
      → e.payload ≢ p
      → bytes_eq (chain_hash sha prev seq (record e { payload = p })) (chain_hash sha prev seq e)
        ≡ false
  unfolding chain_hash
  tampered_hash prev seq e p d =
      let other = sha (preimage prev seq (record e { payload = p })) in
      elim (Bool-cases (bytes_eq other (sha (preimage prev seq e)))) [
        | inl same ↦ absurd (
            d (
              preimage_payload prev seq e p (
                sym (sha-injective _ _ ((bytes_eq_iff other (sha (preimage prev seq e))).0 same)))))
        | inr differ ↦ differ
      ]

  module _ (tid : TenantId) (from to seq : ℕ) (p : Bytes) where
    tampered_within :
        {n : ℕ} {prev : Bytes} {es : List StoredEvent} (old : Bytes)
        → IsChain sha tid n prev es
        → from ≤ suc n
        → (to ≡ 0) ⊎ (seq < to)
        → payload_at tid seq es ≡ some old
        → old ≢ p
        → verify_loop sha tid from to prev (tamper_entries tid seq p es) ≡ broken_at seq
    unfolding verify_loop tamper_entries payload_at
    tampered_within old done f t h d = cc
    tampered_within old (own {prev = prev} {se = se} {rest} own_t s e c) f t h d = ground (
      arith,
      tampered_within old c,
      payload_at_later sha tid seq old c,
      tampered_hash prev se.seq se.event p,
      bytes_eq_iff (chain_hash sha prev se.seq se.event) se.hash,
    )
    tampered_within old (foreign {se = se} {rest} own_t c) f t h d =
        ground (arith, tampered_within old c)

    tampered_late :
        {n : ℕ} {prev : Bytes} {es : List StoredEvent} (old q : Bytes)
        → IsChain sha tid n prev es
        → (from ≤ suc n → q ≡ prev)
        → from ≤ suc n
        → (to ≡ 0) ⊎ (seq < to)
        → payload_at tid seq es ≡ some old
        → old ≢ p
        → verify_loop sha tid from to (seed tid from q es) (tamper_entries tid seq p es)
          ≡ broken_at seq
    tampered_late old q c g f t h d =
        rw (seed_past sha tid from to q c f, g f) (tampered_within old c f t h d)

    tampered_seeded :
        {n : ℕ} {prev : Bytes} {es : List StoredEvent} (old q : Bytes)
        → IsChain sha tid n prev es
        → (from ≤ suc n → q ≡ prev)
        → from ≤ seq
        → (to ≡ 0) ⊎ (seq < to)
        → payload_at tid seq es ≡ some old
        → old ≢ p
        → verify_loop sha tid from to (seed tid from q es) (tamper_entries tid seq p es)
          ≡ broken_at seq
    unfolding verify_loop tamper_entries payload_at seed
    tampered_seeded old q done g f t h d = cc
    tampered_seeded {n} old q (own {prev = prev} {se = se} {rest} own_t s e c) g f t h d =
        elim (dec_lt (suc n) from) [
          | yes early ↦ ground (
            arith,
            tampered_seeded old
                (if str_eq se.tenant tid && (se.seq + 1) == from then se.hash else q) c,
          )
          | no late ↦
              let here = own {n = n} {prev = prev} {se = se} {rest = rest} own_t s e c in
              tampered_late old q here g (omega arith) t h d
        ]
    tampered_seeded old q (foreign {se = se} {rest} own_t c) g f t h d =
        ground (arith, tampered_seeded old q c g)

-- Hashes stay as they are under tampering, and so does the seed.
seed-tamper_entries :
    (tid : TenantId) (from seq : ℕ) (p q : Bytes) (es : List StoredEvent)
    → seed tid from q (tamper_entries tid seq p es) ≡ seed tid from q es
unfolding seed tamper_entries
seed-tamper_entries tid from seq p q [] = refl
seed-tamper_entries tid from seq p q (se ∷ rest) =
    let q' = if str_eq se.tenant tid && (se.seq + 1) == from then se.hash else q in
    let rest_eq = seed-tamper_entries tid from seq p q' rest in
    elim (Bool-cases (str_eq se.tenant tid && se.seq == seq)) [
      | inl hit ↦ rw hit (rest_eq)
      | inr miss ↦ rw miss (rest_eq)
    ]

-- In a sound log, with a hash function that maps no two byte strings to one, changing the payload
-- stored at a sequence number in place makes `VerifyChain` report exactly that number as broken, over
-- every range that contains it.
pub verify_chain-tamper_for_test :
    (sha : Bytes → Bytes) (l : AuditLog) (tid : TenantId) (from to seq : ℕ) (old p : Bytes)
    → ((a b : Bytes) → sha a ≡ sha b → a ≡ b)
    → IsSound sha l
    → payload_at tid seq l.entries ≡ some old
    → old ≢ p
    → from ≤ seq
    → (to ≡ 0) ⊎ (seq < to)
    → verify_chain sha (tamper_for_test l tid seq p) tid from to ≡ broken_at seq
unfolding verify_chain tamper_for_test
verify_chain-tamper_for_test sha l tid from to seq old p inj s h d f t =
    rw (seed-tamper_entries tid from seq p [] l.entries)
      (tampered_seeded sha inj tid from to seq p old [] (s.chained tid) (λ _. refl) f t h d)

-- Two entries that differ only in how the bytes of the event are shared out over its fields.
pub record IsRespelt (a b : StoredEvent) : Type 0 where
  pub seq : a.seq ≡ b.seq
  pub tenant : a.tenant ≡ b.tenant
  pub hash : a.hash ≡ b.hash
  pub bytes : event_bytes a.event ≡ event_bytes b.event
  pub time : a.event.timestamp ≡ b.event.timestamp

pub data AllRespelt : List StoredEvent → List StoredEvent → Type 0 where
  nil : AllRespelt [] []
  cons :
      {a b : StoredEvent} {as' bs : List StoredEvent}
      → IsRespelt a b
      → AllRespelt as' bs
      → AllRespelt (a ∷ as') (b ∷ bs)

chain_hash-respelt :
    (sha : Bytes → Bytes) (prev : Bytes) {a b : StoredEvent}
    → IsRespelt a b
    → chain_hash sha prev a.seq a.event ≡ chain_hash sha prev b.seq b.event
unfolding chain_hash
chain_hash-respelt sha prev r = cc (r.seq, r.bytes, r.time)

seed-respelt :
    (tid : TenantId) (from : ℕ) (q : Bytes) {xs ys : List StoredEvent}
    → AllRespelt xs ys
    → seed tid from q xs ≡ seed tid from q ys
unfolding seed
seed-respelt tid from q nil = refl
seed-respelt tid from q (cons {a} {b} r rs) =
    let q' = if str_eq b.tenant tid && (b.seq + 1) == from then b.hash else q in
    rw (r.seq, r.tenant, r.hash) (seed-respelt tid from q' rs)

verify_loop-respelt :
    (sha : Bytes → Bytes) (tid : TenantId) (from to : ℕ) (q : Bytes) {xs ys : List StoredEvent}
    → AllRespelt xs ys
    → verify_loop sha tid from to q xs ≡ verify_loop sha tid from to q ys
unfolding verify_loop
verify_loop-respelt sha tid from to q nil = refl
verify_loop-respelt sha tid from to q (cons {a} {b} {as'} {bs} r rs) =
    rw (chain_hash-respelt sha q r, r.seq, r.tenant, r.hash)
      (cc (verify_loop-respelt sha tid from to q rs, verify_loop-respelt sha tid from to b.hash rs))

-- `VerifyChain` gives the same report on two logs whose entries differ only in how the bytes of
-- tenant, actor, action and payload are shared out over these fields, whatever the hash function is:
-- the digest is fed the fields one after another with no lengths between them.
pub verify_chain-respelt :
    (sha : Bytes → Bytes) (l l' : AuditLog) (tid : TenantId) (from to : ℕ)
    → AllRespelt l.entries l'.entries
    → verify_chain sha l tid from to ≡ verify_chain sha l' tid from to
unfolding verify_chain
verify_chain-respelt sha l l' tid from to r =
    rw (seed-respelt tid from [] r) (verify_loop-respelt sha tid from to _ r)
