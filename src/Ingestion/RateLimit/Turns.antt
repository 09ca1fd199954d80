-- ===== src/Ingestion/RateLimit/Turns.antt =====
-- ingestion/ratelimit.py: one turn of the loop of `acquire`.
use margin_mvp.Base.{ℕ, suc, ◌-◌, ◌*◌, ◌≤◌, ◌≡◌, refl, Bool, true, false, arith}
use margin_mvp.Ingestion.RateLimit.{
  TokenBucket, Clock, acquired, refill, try_acquire, pass, acquire_loop, acquire,
}

pub mul_mono : (a b r : ℕ) → a ≤ b → a * r ≤ b * r
mul_mono a b r h = grind arith

-- a refused call only refills
pub refused :
    (tokens now : ℕ) (b : TokenBucket)
    → (try_acquire tokens now b).1 ≡ false
    → (try_acquire tokens now b).0 ≡ refill now b
unfolding try_acquire
refused tokens now b h = ground arith

module _ (drift : ℕ → ℕ) (wait : ℕ → ℕ → ℕ) (tokens : ℕ) where
  abbrev pub first : Clock → TokenBucket → TokenBucket × Bool
  first c b = try_acquire tokens (pass drift 0 c).time b

  -- the bucket and the clock with which a refused turn goes on
  abbrev pub next_bucket : Clock → TokenBucket → TokenBucket
  next_bucket c b = refill (pass drift 0 (pass drift 0 c)).time (first c b).0

  abbrev pub next_clock : Clock → TokenBucket → Clock
  next_clock c b =
      pass drift (wait (tokens - (next_bucket c b).tokens) b.rate) (pass drift 0 (pass drift 0 c))

  pub turn_granted :
      (fuel : ℕ) (c : Clock) (b : TokenBucket)
      → (first c b).1 ≡ true
      → acquire_loop drift wait (suc fuel) tokens c b ≡ acquired (first c b).0 (pass drift 0 c)
  unfolding acquire_loop
  turn_granted fuel c b h = rw (h, acquire_loop) refl

  pub turn_refused :
      (fuel : ℕ) (c : Clock) (b : TokenBucket)
      → (first c b).1 ≡ false
      → acquire_loop drift wait (suc fuel) tokens c b
        ≡ acquire_loop drift wait fuel tokens (next_clock c b) (next_bucket c b)
  unfolding acquire_loop
  turn_refused fuel c b h = rw (h, acquire_loop) refl

  pub acquire-loop :
      (fuel : ℕ) (c : Clock) (b : TokenBucket)
      → tokens ≤ b.capacity
      → acquire drift wait fuel tokens c b ≡ acquire_loop drift wait fuel tokens c b
  unfolding acquire
  acquire-loop fuel c b fits = ground arith
