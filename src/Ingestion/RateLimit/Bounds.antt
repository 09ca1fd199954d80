-- ===== src/Ingestion/RateLimit/Bounds.antt =====
-- ingestion/ratelimit.py: the tokens that a bucket holds and grants.
use margin_mvp.Base.{
  refl, ◌∙◌, ℕ, ◌+◌, ◌-◌, ◌*◌, ◌≤◌, ◌≡◌, Option, List, [], ◌∷◌, arith, if◌then◌else◌, ◌∙◌, Bool,
}
use margin_mvp.Base.Exec.{ok}
use margin_mvp.Ingestion.RateLimit.{TokenBucket, create, refill, try_acquire}

pub record IsValid (b : TokenBucket) : Type 0 where
  pub positive : 1 ≤ b.rate
  pub full_at_most : b.tokens ≤ b.capacity

pub create-IsValid :
    (rate : ℕ) (capacity : Option ℕ) (now : ℕ) {b : TokenBucket}
    → create rate capacity now ≡ ok b
    → IsValid b
unfolding create
create-IsValid rate capacity now h = ground arith

pub refill-IsValid : (now : ℕ) {b : TokenBucket} → IsValid b → IsValid (refill now b)
unfolding refill
refill-IsValid now v = ground arith

pub try_acquire-IsValid :
    (tokens now : ℕ) {b : TokenBucket} → IsValid b → IsValid (try_acquire tokens now b).0
unfolding try_acquire
try_acquire-IsValid tokens now v = ground arith

-- requests, each with the time at which it is made
abbrev pub Requests : Type 0
Requests = List (ℕ × ℕ)

-- the bucket after the requests, and the tokens granted in all
pub serve : Requests → TokenBucket → TokenBucket × ℕ
serve [] b = (b, 0)
serve ((tokens, now) ∷ rest) b =
    let (b', granted) = try_acquire tokens now b in
    let (end, total) = serve rest b' in (end, (if granted then tokens + total else total))

refill_gain :
    (now : ℕ) (b : TokenBucket)
    → ((refill now b).tokens ≤ b.tokens + ((refill now b).last - b.last) * b.rate)
      × (b.last ≤ (refill now b).last)
      × ((refill now b).rate ≡ b.rate)
unfolding refill
refill_gain now b = ground arith

pub split_span : (a b c r : ℕ) → a ≤ b → b ≤ c → (c - a) * r ≡ (c - b) * r + (b - a) * r
split_span a b c r h k = let e : c - a ≡ (c - b) + (b - a) = omega arith in rw e (omega arith)

-- what one request leaves and grants is at most what the refill gave
try_acquire_gain :
    (tokens now : ℕ) (b : TokenBucket)
    → let (b', granted) = try_acquire tokens now b in
      ((if granted then tokens else 0) + b'.tokens ≤ b.tokens + (b'.last - b.last) * b.rate)
      × (b.last ≤ b'.last)
      × (b'.rate ≡ b.rate)
      × (b'.capacity ≡ b.capacity)
unfolding try_acquire
try_acquire_gain tokens now b = ground arith

add_gains :
    (granted : Bool) (tokens total held held' kept first second whole : ℕ)
    → (if granted then tokens else 0) + held' ≤ held + first
    → total + kept ≤ held' + second
    → whole ≡ second + first
    → (if granted then tokens + total else total) + kept ≤ held + whole
add_gains granted tokens total held held' kept first second whole g g' e = ground arith

serve-IsValid : (requests : Requests) {b : TokenBucket} → IsValid b → IsValid (serve requests b).0
unfolding serve
serve-IsValid [] v = v
serve-IsValid ((tokens, now) ∷ rest) v = serve-IsValid rest (try_acquire-IsValid tokens now v)

-- the tokens granted and those left over are covered by the tokens at the start and the refill
pub serve_gain :
    (requests : Requests) (b : TokenBucket)
    → let (end, total) = serve requests b in
      (total + end.tokens ≤ b.tokens + (end.last - b.last) * b.rate)
      × (b.last ≤ end.last)
      × (end.rate ≡ b.rate)
      × (end.capacity ≡ b.capacity)
unfolding serve
serve_gain [] b = (omega arith, omega arith, refl, refl)
serve_gain ((tokens, now) ∷ rest) b =
    let (g, l, r, c) = try_acquire_gain tokens now b in
    let (g', l', r', c') = serve_gain rest (try_acquire tokens now b).0 in
    let b' : TokenBucket = (try_acquire tokens now b).0 in
    let end : TokenBucket = (serve rest b').0 in
    (
      add_gains (try_acquire tokens now b).1 tokens (serve rest b').1 b.tokens b'.tokens end.tokens
          _ _ _ g (rw r at g') (split_span b.last b'.last end.last b.rate l l'),
      omega arith,
      r' ∙ r,
      c' ∙ c,
    )

-- TokenBucket.try_acquire, over any sequence of calls on a bucket of positive rate that holds at most its
-- capacity: the tokens granted and those left at the end are at most the capacity and what the rate
-- brings between the first and the last reading, the last reading is not before the first, and the
-- bucket still has a positive rate and holds at most its capacity.
pub serve_bound :
    (requests : Requests) (b : TokenBucket)
    → IsValid b
    → let (end, total) = serve requests b in
      (total + end.tokens ≤ b.capacity + (end.last - b.last) * b.rate)
      × (b.last ≤ end.last)
      × IsValid end
serve_bound requests b v =
    let (g, l, r, c) = serve_gain requests b in (omega arith, l, serve-IsValid requests v)
