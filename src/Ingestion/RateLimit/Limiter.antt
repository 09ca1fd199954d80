-- ===== src/Ingestion/RateLimit/Limiter.antt =====
-- ingestion/ratelimit.py: the seam `RateLimiter`, and the token bucket behind it.
use margin_mvp.Base.{ℕ, Bool}
use margin_mvp.Base.Exec.{Exec, ok, err, value_error, external_error}
use margin_mvp.Ingestion.RateLimit.{
  TokenBucket, Clock, acquired, too_many, out_of_fuel, pass, acquire, try_acquire,
}

-- a limiter, with the number of parts in its default amount, 1.0
pub record RateLimiter (L : Type 0) : Type 0 where
  pub one : ℕ
  pub acquire : ℕ → Exec L (Unit {0})
  pub try_acquire : ℕ → Exec L Bool

-- a bucket and the clock that it was constructed with
pub record Paced : Type 0 where
  pub bucket : TokenBucket
  pub clock : Clock

module _ (drift : ℕ → ℕ) where
  unfoldable pub paced_try_acquire : ℕ → Exec Paced Bool
  unfolding pass try_acquire
  paced_try_acquire tokens p =
      let c = pass drift 0 p.clock in
      let (b, granted) = try_acquire tokens c.time p.bucket in
      (ok granted, record { bucket = b; clock = c })

  module _ (wait : ℕ → ℕ → ℕ) (fuel : ℕ) where
    -- `acquire`; where the turns of its loop are used up it has not returned, which is an error of the model
    unfoldable pub paced_acquire : ℕ → Exec Paced (Unit {0})
    paced_acquire tokens p = elim (acquire drift wait fuel tokens p.clock p.bucket) [
      | acquired b c ↦ (ok tt, record { bucket = b; clock = c })
      | too_many ↦ (err (value_error "cannot acquire"), p)
      | out_of_fuel ↦ (err (external_error "out of fuel"), p)
    ]

    abbrev pub token_limiter : ℕ → RateLimiter Paced
    token_limiter parts = record {
      one = parts;
      acquire = paced_acquire;
      try_acquire = paced_try_acquire;
    }
