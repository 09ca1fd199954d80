-- ===== src/Ingestion/RateLimit/Waiting.antt =====
-- ingestion/ratelimit.py: when the loop of `acquire` ends.
use margin_mvp.Base.{
  ℕ, zero, suc, ◌+◌, ◌-◌, ◌*◌, ◌≤◌, ◌<◌, ◌≡◌, ◌∙◌, refl, ap, false, arith, inl, inr, ◌⊎◌,
  Bool-cases,
}
use margin_mvp.Ingestion.RateLimit.{
  TokenBucket, Clock, acquired, too_many, out_of_fuel, refill, try_acquire, pass, acquire_loop,
  acquire,
}
use margin_mvp.Ingestion.RateLimit.Bounds.{IsValid, refill-IsValid}
use margin_mvp.Ingestion.RateLimit.Turns.{
  mul_mono, refused, first, next_bucket, next_clock, turn_granted, turn_refused, acquire-loop,
}
use margin_mvp.Ingestion.RateLimit.Spending.{Steady, next-Steady}

-- a refill that finds time gone by fills the bucket, or adds to it
refill_gains :
    (now : ℕ) (b : TokenBucket)
    → IsValid b
    → b.last < now
    → (b.capacity ≤ (refill now b).tokens) ⊎ (b.tokens + 1 ≤ (refill now b).tokens)
unfolding refill
refill_gains now b v h =
    let one : 1 * b.rate ≤ (now - b.last) * b.rate =
      mul_mono 1 (now - b.last) b.rate (omega arith) in
    ground (arith, v.positive)

refill_keeps :
    (now : ℕ) (b : TokenBucket)
    → IsValid b
    → (b.tokens ≤ (refill now b).tokens) × ((refill now b).capacity ≡ b.capacity)
unfolding refill
refill_keeps now b v = ground (arith, v.full_at_most)

not_granted :
    (tokens now : ℕ) (b : TokenBucket)
    → (try_acquire tokens now b).1 ≡ false
    → (refill now b).tokens < tokens
unfolding try_acquire
not_granted tokens now b h = ground arith

module _ (drift : ℕ → ℕ) (wait : ℕ → ℕ → ℕ) (tokens : ℕ) where
  -- what a refused turn, in which the clock moves, goes on with
  turn_gains :
      ((n : ℕ) → 1 ≤ drift n)
      → (c : Clock) (b : TokenBucket) → Steady b c
      → tokens ≤ b.capacity
      → (first drift wait tokens c b).1 ≡ false
      → (b.tokens + 1 ≤ (next_bucket drift wait tokens c b).tokens)
        × (tokens ≤ (next_bucket drift wait tokens c b).capacity)
  unfolding pass
  turn_gains moves c b steady fits short =
      let now = (pass drift 0 c).time in
      let later = (pass drift 0 (pass drift 0 c)).time in
      let lacks = not_granted tokens now b short in
      let gain = refill_gains now b steady.valid (omega (arith, steady.past, moves c.step)) in
      let (_, same) = refill_keeps now b steady.valid in
      let (more, same') = refill_keeps later (refill now b) (refill-IsValid now steady.valid) in
      rw (refused tokens now b short) (ground arith)

  loop_returns :
      ((n : ℕ) → 1 ≤ drift n)
      → (fuel : ℕ) (c : Clock) (b : TokenBucket) → Steady b c
      → tokens ≤ b.capacity
      → tokens ≤ fuel + b.tokens
      → (b' : TokenBucket) × (c' : Clock) × (acquire_loop drift wait (suc fuel) tokens c b
          ≡ acquired b' c')
  loop_returns moves zero c b steady fits enough =
      elim (Bool-cases (first drift wait tokens c b).1) [
        | inl there ↦ (_, _, turn_granted drift wait tokens zero c b there)
        | inr short ↦
            let lacks = not_granted tokens (pass drift 0 c).time b short in
            let (more, _) = refill_keeps (pass drift 0 c).time b steady.valid in
            absurd (omega arith)
      ]
  loop_returns moves (suc fuel) c b steady fits enough =
      elim (Bool-cases (first drift wait tokens c b).1) [
        | inl there ↦ (_, _, turn_granted drift wait tokens (suc fuel) c b there)
        | inr short ↦
            let (gain, fits') = turn_gains moves c b steady fits short in
            let (b', c', ends) =
              loop_returns moves fuel (next_clock drift wait tokens c b)
                (next_bucket drift wait tokens c b) (next-Steady drift wait tokens c b steady) fits'
                (omega arith) in
            (b', c', turn_refused drift wait tokens (suc fuel) c b short ∙ ends)
      ]

  -- TokenBucket.acquire, up to the rounding of its sums and products, for an amount within the capacity, on a
  -- valid bucket that is not ahead of its clock, where each reading of the clock and each sleep takes a
  -- tick at least, and however long the sleeps are otherwise, too short ones and none at all included: it
  -- returns, after one turn of its loop more than parts of a token are missing, or earlier.
  pub acquire_returns :
      ((n : ℕ) → 1 ≤ drift n)
      → (fuel : ℕ) (c : Clock) (b : TokenBucket) → IsValid b
      → b.last ≤ c.time
      → tokens ≤ b.capacity
      → tokens ≤ fuel + b.tokens
      → (b' : TokenBucket) × (c' : Clock) × (acquire drift wait (suc fuel) tokens c b
          ≡ acquired b' c')
  acquire_returns moves fuel c b v past fits enough =
      let (b', c', ends) =
        loop_returns moves fuel c b (record { valid = v; past = past }) fits enough in
      (b', c', acquire-loop drift wait tokens (suc fuel) c b fits ∙ ends)

  still_pass :
      ((n : ℕ) → drift n ≡ 0) → (d : ℕ) (c : Clock) → d ≡ 0 → (pass drift d c).time ≡ c.time
  unfolding pass
  still_pass still d c e = let e' = still c.step in omega arith

  still_refill : (now : ℕ) (b : TokenBucket) → now ≡ b.last → refill now b ≡ b
  unfolding refill
  still_refill now b e = ground arith

  still_try_acquire :
      (now : ℕ) (b : TokenBucket)
      → now ≡ b.last
      → b.tokens < tokens
      → try_acquire tokens now b ≡ (b, false)
  unfolding try_acquire
  still_try_acquire now b e lacks = let same = still_refill now b e in rw same (ground arith)

  loop_stalls :
      ((n : ℕ) → drift n ≡ 0)
      → (fuel : ℕ) (c : Clock) (b : TokenBucket) → c.time ≡ b.last
      → b.tokens < tokens
      → wait (tokens - b.tokens) b.rate ≡ 0
      → acquire_loop drift wait fuel tokens c b ≡ out_of_fuel
  unfolding acquire_loop
  loop_stalls still zero c b at lacks none_slept = refl
  loop_stalls still (suc fuel) c b at lacks none_slept =
      let c₁ = pass drift 0 c in
      let c₂ = pass drift 0 c₁ in
      let now : c₁.time ≡ b.last = still_pass still 0 c refl ∙ at in
      let later : c₂.time ≡ b.last = still_pass still 0 c₁ refl ∙ now in
      let first_turn : first drift wait tokens c b ≡ (b, false) =
        still_try_acquire c₁.time b now lacks in
      let same : next_bucket drift wait tokens c b ≡ b =
        ap (λ p. refill c₂.time p.0) first_turn ∙ still_refill c₂.time b later in
      let slept : wait (tokens - (next_bucket drift wait tokens c b).tokens) b.rate ≡ 0 =
        ap (λ x. wait (tokens - x.tokens) b.rate) same ∙ none_slept in
      turn_refused drift wait tokens fuel c b (ap (λ p. p.1) first_turn)
      ∙ ap (acquire_loop drift wait fuel tokens (next_clock drift wait tokens c b)) same
      ∙ loop_stalls still fuel (next_clock drift wait tokens c b) b
          (still_pass still _ c₂ slept ∙ later) lacks none_slept

  -- TokenBucket.acquire, on a clock that only sleeping moves, for an amount within the capacity that is not
  -- there at the time of the last refill, where the quotient of the shortfall and the rate is too small for
  -- the clock: its loop does not end, however many turns it makes.
  pub acquire_stalls :
      ((n : ℕ) → drift n ≡ 0)
      → (fuel : ℕ) (c : Clock) (b : TokenBucket) → tokens ≤ b.capacity
      → c.time ≡ b.last
      → b.tokens < tokens
      → wait (tokens - b.tokens) b.rate ≡ 0
      → acquire drift wait fuel tokens c b ≡ out_of_fuel
  acquire_stalls still fuel c b fits at lacks none_slept =
      acquire-loop drift wait tokens fuel c b fits ∙ loop_stalls still fuel c b at lacks none_slept

  -- What does not fit is refused before the clock is read.
  pub acquire_too_many :
      (fuel : ℕ) (c : Clock) (b : TokenBucket)
      → b.capacity < tokens
      → acquire drift wait fuel tokens c b ≡ too_many
  unfolding acquire
  acquire_too_many fuel c b h = ground arith
