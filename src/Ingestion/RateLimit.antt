-- ===== src/Ingestion/RateLimit.antt =====
-- ingestion/ratelimit.py: the token bucket. Time is in ticks, of which a second has `ticks_per_second`,
-- and a token is divided into a number of equal parts that each use chooses; a rate is a number of
-- parts a tick. The sums and products of a bucket are exact, where the source has doubles. The
-- clock never runs backwards: `drift` says how much time passes before each step. How long the sleep
-- for a shortfall is, where the source divides doubles, is left open: `wait` says it, and it may be
-- too short, or nothing.
pub mod Bounds
pub mod Turns
pub mod Waiting
pub mod Limiter
pub mod Spending
use margin_mvp.Base.{
  ℕ, zero, suc, ◌+◌, ◌-◌, ◌*◌, ◌/◌, min, Bool, true, false, Option, none, some, List, [], ◌∷◌,
  if◌then◌else◌, ltb, leb, eqb,
}
use margin_mvp.Base.Exec.{Result, ok, err, value_error}

pub record TokenBucket : Type 0 where
  pub rate : ℕ
  pub capacity : ℕ
  pub tokens : ℕ
  pub last : ℕ

abbrev pub ticks_per_second : ℕ
ticks_per_second = 1000000000

-- `capacity if capacity is not None else rate`
abbrev pub capacity_or : Option ℕ → ℕ → ℕ
capacity_or none rate = rate * ticks_per_second
capacity_or (some capacity) rate = capacity

-- `__init__`
unfoldable pub create : ℕ → Option ℕ → ℕ → Result TokenBucket
create rate capacity now =
    if eqb rate 0
    then err (value_error "rate must be positive")
    else ok (record {
      rate = rate;
      capacity = capacity_or capacity rate;
      tokens = capacity_or capacity rate;
      last = now;
    })

unfoldable pub refill : ℕ → TokenBucket → TokenBucket
refill now b =
    if ltb b.last now
    then record b { tokens = min b.capacity (b.tokens + (now - b.last) * b.rate); last = now }
    else b

-- the bucket after the call, and whether the tokens were there
unfoldable pub try_acquire : ℕ → ℕ → TokenBucket → TokenBucket × Bool
unfolding refill
try_acquire tokens now b =
    let b' = refill now b in
    if leb tokens b'.tokens then (record b' { tokens = b'.tokens - tokens }, true) else (b', false)

-- the time, and how many steps the clock has made
pub record Clock : Type 0 where
  pub time : ℕ
  pub step : ℕ

pub data Acquired : Type 0 where
  acquired : TokenBucket → Clock → Acquired
  too_many : Acquired
  out_of_fuel : Acquired

module _ (drift : ℕ → ℕ) where
  -- a step of the clock that takes at least `d`: a reading, or a sleep
  unfoldable pub pass : ℕ → Clock → Clock
  pass d c = record { time = c.time + d + drift c.step; step = c.step + 1 }

  module _ (wait : ℕ → ℕ → ℕ) where
    -- the loop of `acquire`; each turn reads the clock in `try_acquire`, and once more before it sleeps for
    -- as long as `wait` says of `deficit` and `rate`
    unfoldable pub acquire_loop : ℕ → ℕ → Clock → TokenBucket → Acquired
    unfolding pass try_acquire
    acquire_loop zero tokens c b = out_of_fuel
    acquire_loop (suc fuel) tokens c b =
        let c₁ = pass 0 c in
        let (b₁, granted) = try_acquire tokens c₁.time b in
        let c₂ = pass 0 c₁ in
        let b₂ = refill c₂.time b₁ in
        elim granted [
          | true ↦ acquired b₁ c₁
          | false ↦ acquire_loop fuel tokens (pass (wait (tokens - b₂.tokens) b.rate) c₂) b₂
        ]

    unfoldable pub acquire : ℕ → ℕ → Clock → TokenBucket → Acquired
    unfolding acquire_loop
    acquire fuel tokens c b =
        if ltb b.capacity tokens then too_many else acquire_loop fuel tokens c b
