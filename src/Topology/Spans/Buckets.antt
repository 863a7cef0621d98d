-- ===== src/Topology/Spans/Buckets.antt =====
-- The bucket of a duration is the doubling range that it lies in.
use tracing_bot.Prelude.{
  ℕ, zero, suc, ◌+◌, ◌*◌, ◌/◌, ◌^◌, ◌≤◌, ◌<◌, leb, ltb, if_elim, ◌≡◌, refl, arith,
}
use native.Mathlib.Numerals.{unary_clauses}
use tracing_bot.Topology.Spans.{bucket_loop, bucket_index}

-- The bucket `i` holds the milliseconds from `2^i` to `2^(i+1)`, the first also what is below a millisecond
-- and the last all that is above.
pub record IsBucket (ms i : ℕ) : Type 0 where
  pub within : i ≤ 15
  pub from : (1 ≤ i) → 2 ^ i ≤ ms
  pub below : i < 15 → ms < 2 ^ (i + 1)

double : (i : ℕ) → 2 ^ (i + 1) ≡ 2 ^ i * 2
double i = simp unary_clauses refl

bucket_loop-IsBucket :
    (n ms i bound : ℕ)
    → i + n ≡ 15
    → bound ≡ 2 ^ i
    → bound ≤ ms
    → IsBucket ms (bucket_loop n ms i bound)
unfolding bucket_loop
bucket_loop-IsBucket zero ms i bound e b le = record {
  within = omega arith;
  from = λ _. rw⁻¹ b le;
  below = λ less. absurd (omega arith);
}
bucket_loop-IsBucket (suc n) ms i bound e b le =
    if_elim (IsBucket ms) (leb (bound * 2) ms)
      (λ h.
        bucket_loop-IsBucket n ms (i + 1) (bound * 2) (omega arith) (omega (arith, double i))
          (ground arith))
      (λ h. record {
        within = omega arith;
        from = λ _. rw⁻¹ b le;
        below = λ _. ground (arith, double i);
      })

-- Every duration falls into the bucket whose range its whole milliseconds lie in.
pub bucket_index-IsBucket : (nanos : ℕ) → IsBucket (nanos / 1_000_000) (bucket_index nanos)
unfolding bucket_index
bucket_index-IsBucket nanos =
    if_elim (IsBucket (nanos / 1_000_000)) (ltb (nanos / 1_000_000) 1)
      (λ h. record {
        within = omega arith;
        from = λ le. absurd (omega arith);
        below = λ _. ground arith;
      })
      (λ h. bucket_loop-IsBucket 15 (nanos / 1_000_000) 0 1 refl refl (ground arith))
