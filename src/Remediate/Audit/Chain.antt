-- ===== src/Remediate/Audit/Chain.antt =====
-- audit.go: every log that `Append` builds verifies, over every range of sequence numbers.
use tracing_bot.Prelude.{
  ℕ, suc, ◌+◌, ◌≡◌, ◌∙◌, true, false, List, [], ◌∷◌, ◌++◌, arith, str_eq, if◌then◌else◌,
}
use tracing_bot.Prelude.Bytes.{Bytes}
use tracing_bot.Remediate.Types.{TenantId}
use tracing_bot.Remediate.Audit.{StoredEvent, last_hash, chain_hash}

-- The number of entries of a tenant.
unfoldable pub count : TenantId → List StoredEvent → ℕ
count tid [] = 0
count tid (se ∷ rest) = let more = count tid rest in if str_eq se.tenant tid then suc more else more

module _ (sha : Bytes → Bytes) (tid : TenantId) where
  -- From number `n` and hash `prev` on, the tenant's entries are numbered one by one, and each
  -- hash commits to the one before it.
  pub data IsChain : ℕ → Bytes → List StoredEvent → Type 0 where
    done : {n : ℕ} {prev : Bytes} → IsChain n prev []
    own :
        {n : ℕ} {prev : Bytes} {se : StoredEvent} {rest : List StoredEvent}
        → str_eq se.tenant tid ≡ true
        → se.seq ≡ suc n
        → se.hash ≡ chain_hash sha prev se.seq se.event
        → IsChain (suc n) se.hash rest
        → IsChain n prev (se ∷ rest)
    foreign :
        {n : ℕ} {prev : Bytes} {se : StoredEvent} {rest : List StoredEvent}
        → str_eq se.tenant tid ≡ false
        → IsChain n prev rest
        → IsChain n prev (se ∷ rest)

  pub IsChain-append_own :
      {n : ℕ} {prev : Bytes} {es : List StoredEvent} (se : StoredEvent)
      → IsChain n prev es
      → str_eq se.tenant tid ≡ true
      → se.seq ≡ suc (n + count tid es)
      → se.hash ≡ chain_hash sha (last_hash tid prev es) se.seq se.event
      → IsChain n prev (es ++ se ∷ [])
  unfolding count last_hash
  IsChain-append_own se done t s h = own t (omega arith) h done
  IsChain-append_own se (own {se = x} {rest} t' s' h' c) t s h =
      own t' s' h' (IsChain-append_own se c t (rw t' at s ∙ omega arith) (rw t' at h))
  IsChain-append_own se (foreign t' c) t s h =
      foreign t' (IsChain-append_own se c t (rw t' at s) (rw t' at h))

  pub IsChain-append_foreign :
      {n : ℕ} {prev : Bytes} {es : List StoredEvent} (se : StoredEvent)
      → IsChain n prev es
      → str_eq se.tenant tid ≡ false
      → IsChain n prev (es ++ se ∷ [])
  IsChain-append_foreign se done t = foreign t done
  IsChain-append_foreign se (own t' s' h' c) t = own t' s' h' (IsChain-append_foreign se c t)
  IsChain-append_foreign se (foreign t' c) t = foreign t' (IsChain-append_foreign se c t)
