-- ===== src/Rca/Engine/Evidence.antt =====
-- The bodies that the recorded steps refer to stay in the store, where no two keys of an investigation
-- are one.
use tracing_bot.Prelude.{
  ℕ, suc, ◌+◌, ◌<◌, String, Option, none, some, List, [], ◌∷◌, ◌++◌, ◌≡◌, ◌≢◌, arith, All, All-imp,
  ◌⊎◌, inl, inr, sym, ◌∙◌, Bool-cases, length,
}
use tracing_bot.Prelude.Bytes.{Bytes}
use tracing_bot.Rca.Types.{Step, Proposal}
use tracing_bot.Rca.Journal.{Journal, ObjectPutter}
use tracing_bot.Rca.Journal.Laws.{KeepsBodies}
use tracing_bot.Rca.Engine.{put_output, Deps, put_body, put_reasoner_output, put_evidence}

-- The sequence numbers of the steps count up.
abbrev pub Numbered : ℕ → List Step → Type 0
Numbered n [] = Unit
Numbered n (st ∷ ss) = (st.seq ≡ n) × Numbered (suc n) ss

pub Numbered-snoc :
    (n : ℕ) (ss : List Step) (st : Step)
    → Numbered n ss
    → st.seq ≡ n + length ss
    → Numbered n (ss ++ st ∷ [])
Numbered-snoc n [] st h e = (omega (arith, e), tt)
Numbered-snoc n (s ∷ ss) st h e = (h.0, Numbered-snoc (suc n) ss st h.1 (omega (arith, e)))

pub Numbered-lt : (n : ℕ) (ss : List Step) → Numbered n ss → All (λ st. st.seq < n + length ss) ss
Numbered-lt n [] h = tt
Numbered-lt n (s ∷ ss) h = (
  omega (arith, h.0),
  All-imp (λ st. st.seq < suc n + length ss) (λ st. st.seq < n + suc (length ss)) ss
      (λ st lt. omega (arith, lt)) (Numbered-lt (suc n) ss h.1),
)

-- What `reasoner/…` and `evidence/…` keys of one investigation are: a key for each number.
pub record IsKeyed (d : Deps) : Type 0 where
  pub inj : (tid id : String) (i j : ℕ) → d.evidence_ref tid id i ≡ d.evidence_ref tid id j → i ≡ j
  pub apart : (tid id : String) (i j : ℕ) → d.reasoner_ref tid id i ≢ d.evidence_ref tid id j

module _ {O : Type 0} (on : ObjectPutter O) (d : Deps) (tid id : String) where
  abbrev pub body_of : Option O → String → Option Bytes
  body_of none key = none
  body_of (some o) key = on.get_object o tid key

  -- A step without a result, or one whose body is in the store under its own key and has its hash.
  abbrev pub IsBacked : Option O → Step → Type 0
  IsBacked objs st =
      (st.tool_result_ref ≡ "")
      ⊎ ((st.tool_result_ref ≡ d.evidence_ref tid id st.seq)
          × ((body : Bytes) × (body_of objs st.tool_result_ref ≡ some body)
              × (d.sha256_hex body ≡ st.tool_result_hash)))

  -- Writing another key leaves a step backed.
  put_body-IsBacked :
      {J : Type 0} (jn : Journal J) (objs : Option O) (key : String) (body : Bytes) (st : Step)
      → KeepsBodies on
      → key ≢ d.evidence_ref tid id st.seq
      → IsBacked objs st
      → IsBacked (put_body jn on d objs tid key body).0 st
  put_body-IsBacked jn objs key body st k n (inl h) = inl h
  put_body-IsBacked jn none key body st k n (inr h) = inr h
  put_body-IsBacked jn (some o) key body st k n (inr (e, (b, g, s))) =
      inr (e, (b, k.put-other o tid key _ body (λ q. n (q ∙ e)) ∙ g, s))

  module _ {J : Type 0} (jn : Journal J) (k : KeepsBodies on) (keyed : IsKeyed d) where
    put_output-IsBacked :
        (objs : Option O) (seq : ℕ) (json : Option Bytes) (st : Step)
        → IsBacked objs st
        → IsBacked (put_output jn on d objs tid (d.reasoner_ref tid id seq) json).0 st
    put_output-IsBacked objs seq none st h = h
    put_output-IsBacked objs seq (some body) st h =
        put_body-IsBacked jn objs (d.reasoner_ref tid id seq) body st k
          (keyed.apart tid id seq st.seq) h

    pub put_reasoner_output-IsBacked :
        (objs : Option O) (seq : ℕ) (p : Proposal) (st : Step)
        → IsBacked objs st
        → IsBacked (put_reasoner_output jn on d objs tid id seq p).0 st
    unfolding put_reasoner_output
    put_reasoner_output-IsBacked objs seq p st h =
        put_output-IsBacked objs seq (d.proposal_json p) st h

    pub put_evidence-IsBacked :
        (objs : Option O) (seq : ℕ) (rows : Bytes) (st : Step)
        → st.seq < seq
        → IsBacked objs st
        → IsBacked (put_evidence jn on d objs tid id seq rows).0 st
    unfolding put_evidence
    put_evidence-IsBacked objs seq [] st lt h = h
    put_evidence-IsBacked objs seq (b ∷ rows) st lt h =
        put_body-IsBacked jn objs (d.evidence_ref tid id seq) (b ∷ rows) st k
          (λ q. absurd (omega (arith, keyed.inj tid id _ _ q))) h

    -- The step of the result itself, as `run_call` fills it in.
    pub put_evidence-own :
        (objs : Option O) (seq : ℕ) (rows : Bytes) (st : Step)
        → st.seq ≡ seq
        → st.tool_result_hash ≡ (put_evidence jn on d objs tid id seq rows).1
        → st.tool_result_ref ≡ (put_evidence jn on d objs tid id seq rows).2
        → IsBacked (put_evidence jn on d objs tid id seq rows).0 st
    unfolding put_evidence
    put_evidence-own objs seq [] st e h r = inl r
    put_evidence-own none seq (b ∷ rows) st e h r = inl r
    put_evidence-own (some o) seq (b ∷ rows) st e h r =
        elim (Bool-cases (on.put_object o tid (d.evidence_ref tid id seq) (b ∷ rows)).1) [
          | inr bad ↦ inl (ground arith)
          | inl good ↦
              let ref : st.tool_result_ref ≡ d.evidence_ref tid id seq = ground arith in
              inr (rw e ref, (b ∷ rows, rw ref (k.put-get o tid _ (b ∷ rows) good), sym h))
        ]
