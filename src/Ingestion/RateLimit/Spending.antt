-- ===== src/Ingestion/RateLimit/Spending.antt =====
-- ingestion/ratelimit.py: what a bucket has spent, call after call.
use margin_mvp.Base.{
  ℕ, zero, suc, ◌+◌, ◌-◌, ◌*◌, ◌≤◌, ◌≡◌, refl, ◌∙◌, true, false, arith, inl, inr, Bool-cases,
}
use margin_mvp.Ingestion.RateLimit.{
  TokenBucket, Clock, Acquired, acquired, too_many, out_of_fuel, refill, try_acquire, acquire_loop,
  pass, Acquired,
}
use margin_mvp.Ingestion.RateLimit.Turns.{
  next_bucket, next_clock, mul_mono, refused, turn_granted, turn_refused,
}
use margin_mvp.Ingestion.RateLimit.Bounds.{IsValid, refill-IsValid, try_acquire-IsValid, split_span}

-- of what was there at first and what the rate has brought since, `spent` tokens at least are gone
pub record Spent (spent : ℕ) (b b' : TokenBucket) : Type 0 where
  pub covered : spent + b'.tokens ≤ b.tokens + (b'.last - b.last) * b.rate
  pub later : b.last ≤ b'.last
  pub same_rate : b'.rate ≡ b.rate
  pub same_capacity : b'.capacity ≡ b.capacity

pub Spent-none : (b : TokenBucket) → Spent 0 b b
Spent-none b = record {
  covered = omega arith;
  later = omega arith;
  same_rate = refl;
  same_capacity = refl;
}

add_spent :
    (t u x y z first second whole : ℕ)
    → t + y ≤ x + first
    → u + z ≤ y + second
    → whole ≡ second + first
    → (t + u) + z ≤ x + whole
add_spent t u x y z first second whole g h e = omega arith

pub Spent-then : {t u : ℕ} {a b c : TokenBucket} → Spent t a b → Spent u b c → Spent (t + u) a c
Spent-then {t = t} {u = u} {a = a} {b = b} {c = c} s s' = record {
  covered =
      add_spent t u a.tokens b.tokens c.tokens _ _ _ s.covered (rw s.same_rate at s'.covered)
        (split_span a.last b.last c.last a.rate s.later s'.later);
  later = omega (arith, s.later, s'.later);
  same_rate = s'.same_rate ∙ s.same_rate;
  same_capacity = s'.same_capacity ∙ s.same_capacity;
}

pub Spent-less : {t u : ℕ} {a b : TokenBucket} → u ≤ t → Spent t a b → Spent u a b
Spent-less less s = record {
  covered = omega (arith, s.covered);
  later = s.later;
  same_rate = s.same_rate;
  same_capacity = s.same_capacity;
}

refill-Spent : (now : ℕ) (b : TokenBucket) → Spent 0 b (refill now b)
unfolding refill
refill-Spent now b = record {
  covered = ground arith;
  later = ground arith;
  same_rate = ground arith;
  same_capacity = ground arith;
}

granted-Spent :
    (tokens now : ℕ) (b : TokenBucket)
    → (try_acquire tokens now b).1 ≡ true
    → Spent tokens b (try_acquire tokens now b).0
unfolding try_acquire
granted-Spent tokens now b h =
    let s = refill-Spent now b in
    record {
      covered = ground (arith, s.covered);
      later = ground (arith, s.later);
      same_rate = ground (arith, s.same_rate);
      same_capacity = ground (arith, s.same_capacity);
    }

-- a bucket that is valid and not ahead of its clock
pub record Steady (b : TokenBucket) (c : Clock) : Type 0 where
  pub valid : IsValid b
  pub past : b.last ≤ c.time

-- what is spent until some time is paid for by the capacity and the rate
pub Spent-bound :
    {t : ℕ} {a b : TokenBucket} {c : Clock}
    → IsValid a
    → Spent t a b
    → Steady b c
    → t ≤ a.capacity + (c.time - a.last) * a.rate
Spent-bound {a = a} {b = b} {c = c} valid s steady = omega (
  arith,
  s.covered,
  valid.full_at_most,
  mul_mono (b.last - a.last) (c.time - a.last) a.rate (omega (arith, steady.past)),
)

abbrev pub Leaves : ℕ → TokenBucket → Acquired → Type 0
Leaves tokens b (acquired b' c') = Spent tokens b b' × Steady b' c'
Leaves tokens b too_many = Unit
Leaves tokens b out_of_fuel = Unit

Leaves-after :
    (tokens : ℕ) {a b : TokenBucket}
    → Spent 0 a b
    → (end : Acquired) → Leaves tokens b end
    → Leaves tokens a end
Leaves-after tokens first (acquired b' c') (s, steady) =
    (Spent-less (omega arith) (Spent-then first s), steady)
Leaves-after tokens first too_many s = tt
Leaves-after tokens first out_of_fuel s = tt

refused-Spent :
    (tokens now : ℕ) (b : TokenBucket)
    → (try_acquire tokens now b).1 ≡ false
    → Spent 0 b (try_acquire tokens now b).0
refused-Spent tokens now b h = rw (refused tokens now b h) (refill-Spent now b)

module _ (drift : ℕ → ℕ) where
  pass-later : (d : ℕ) (c : Clock) → c.time ≤ (pass drift d c).time
  unfolding pass
  pass-later d c = omega arith

  refill-Steady :
      (d : ℕ) (c : Clock) (b : TokenBucket)
      → Steady b c
      → Steady (refill (pass drift d c).time b) (pass drift d c)
  unfolding refill
  refill-Steady d c b h = record {
    valid = refill-IsValid (pass drift d c).time h.valid;
    past = let later = pass-later d c in let past = h.past in ground arith;
  }

  try_acquire-Steady :
      (tokens : ℕ) (c : Clock) (b : TokenBucket)
      → Steady b c
      → Steady (try_acquire tokens (pass drift 0 c).time b).0 (pass drift 0 c)
  unfolding try_acquire
  try_acquire-Steady tokens c b h =
      let s = refill-Steady 0 c b h in
      let past = s.past in
      record {
        valid = try_acquire-IsValid tokens (pass drift 0 c).time h.valid;
        past = ground arith;
      }

  wait-Steady : (d : ℕ) (c : Clock) (b : TokenBucket) → Steady b c → Steady b (pass drift d c)
  wait-Steady d c b h = record { valid = h.valid; past = omega (arith, h.past, pass-later d c) }

  -- what a refused turn goes on with
  pub next-Steady :
      (wait : ℕ → ℕ → ℕ) (tokens : ℕ) (c : Clock) (b : TokenBucket)
      → Steady b c
      → Steady (next_bucket drift wait tokens c b) (next_clock drift wait tokens c b)
  next-Steady wait tokens c b steady =
      wait-Steady _ _ _ (refill-Steady 0 _ _ (try_acquire-Steady tokens c b steady))

  -- an amount that is acquired is spent, and leaves the bucket in order
  pub acquire_loop-Leaves :
      (wait : ℕ → ℕ → ℕ) (fuel tokens : ℕ) (c : Clock) (b : TokenBucket)
      → Steady b c
      → Leaves tokens b (acquire_loop drift wait fuel tokens c b)
  unfolding acquire_loop
  acquire_loop-Leaves wait zero tokens c b steady = tt
  acquire_loop-Leaves wait (suc fuel) tokens c b steady =
      let now = (pass drift 0 c).time in
      let later = (pass drift 0 (pass drift 0 c)).time in
      elim (Bool-cases (try_acquire tokens now b).1) [
        | inl there ↦
            rw (turn_granted drift wait tokens fuel c b there)
              (granted-Spent tokens now b there, try_acquire-Steady tokens c b steady)
        | inr short ↦ rw (turn_refused drift wait tokens fuel c b short) (
            Leaves-after tokens
              (Spent-then (refused-Spent tokens now b short) (refill-Spent later _)) _
              (acquire_loop-Leaves wait fuel tokens _ _ (next-Steady wait tokens c b steady)))
      ]
