-- ===== src/Resolver/Likeness.antt =====
-- resolver/suggest.py: the best ratio of a metric's terms, and its score.
use native.Mathlib.Nat.{le_of_mul-le-mul_left, mul-le-mul_right, div-add-mod, mod-lt}
use margin_mvp.Base.{
  refl, sym, subst, false, ◌<◌, ℕ, ◌+◌, ◌*◌, ◌/◌, ◌%◌, ◌≤◌, arith, ◌≡◌, refl, ◌⊎◌, inl, inr, true,
  List, [], ◌∷◌, String, Bool-cases,
}
use margin_mvp.Base.Lists.{In, All, All-map}
use margin_mvp.Base.Text.{casefold}
use margin_mvp.Resolver.Matcher.{Ratio, ratio}
use margin_mvp.Resolver.Ranking.{best_ratio-IsProper}
use margin_mvp.Resolver.Suggest.{less, best_ratio, round_4}

-- one ratio is at most another
abbrev pub AtMost : Ratio → Ratio → Type 0
AtMost p q = p.num * q.den ≤ q.num * p.den

AtMost-trans : (p q r : Ratio) → 1 ≤ q.den → AtMost p q → AtMost q r → AtMost p r
AtMost-trans p q r h k l =
    le_of_mul-le-mul_left (omega (arith, mul-le-mul_right r.den k, mul-le-mul_right p.den l)) h

-- the ratio of a term to the name
abbrev pub likeness : String → String → Ratio
likeness name term = ratio name (casefold term)

-- a score in ten-thousandths is nearest to the ratio
abbrev pub IsNearest : Ratio → ℕ → Type 0
IsNearest p k =
    (2 * (k * p.den) ≤ 2 * (p.num * 10000) + p.den)
    × (2 * (p.num * 10000) ≤ 2 * (k * p.den) + p.den)

round_4_cases :
    (p : Ratio)
    → ((round_4 p ≡ p.num * 10000 / p.den) × (2 * (p.num * 10000 % p.den) ≤ p.den))
      ⊎ ((round_4 p ≡ p.num * 10000 / p.den + 1) × (p.den ≤ 2 * (p.num * 10000 % p.den)))
unfolding round_4
round_4_cases p = ground arith

nearest :
    (n d q r : ℕ)
    → d * q + r ≡ n
    → 2 * r ≤ d
    → (2 * (q * d) ≤ 2 * n + d) × (2 * n ≤ 2 * (q * d) + d)
nearest n d q r e h = (omega arith, omega arith)

nearest_above :
    (n d q r : ℕ)
    → d * q + r ≡ n
    → d ≤ 2 * r
    → r < d
    → (2 * ((q + 1) * d) ≤ 2 * n + d) × (2 * n ≤ 2 * ((q + 1) * d) + d)
nearest_above n d q r e h k = (omega arith, omega arith)

pub round_4-IsNearest : (p : Ratio) → 1 ≤ p.den → IsNearest p (round_4 p)
round_4-IsNearest p h =
    let parts : p.den * (p.num * 10000 / p.den) + p.num * 10000 % p.den ≡ p.num * 10000 =
      div-add-mod (p.num * 10000) p.den in
    elim (round_4_cases p) [
      | inl (same, low) ↦ rw same (nearest (p.num * 10000) p.den _ _ parts low)
      | inr (same, high) ↦
          rw same (nearest_above (p.num * 10000) p.den _ _ parts high (mod-lt (p.num * 10000) h))
    ]

best_of_better :
    (name t : String) (ts : List String)
    → less (best_ratio name ts) (likeness name t) ≡ true
    → best_ratio name (t ∷ ts) ≡ likeness name t
unfolding best_ratio
best_of_better name t ts h = rw h refl

best_of_worse :
    (name t : String) (ts : List String)
    → less (best_ratio name ts) (likeness name t) ≡ false
    → best_ratio name (t ∷ ts) ≡ best_ratio name ts
unfolding best_ratio
best_of_worse name t ts h = rw h refl

less-AtMost : (p q : Ratio) → less p q ≡ true → AtMost p q
unfolding less
less-AtMost p q h = ground arith

not_less-AtMost : (p q : Ratio) → less p q ≡ false → AtMost q p
unfolding less
not_less-AtMost p q h = ground arith

-- none of the terms is more like the name
abbrev pub IsTop : String → List String → Ratio → Type 0
IsTop name terms p = All (λ t. AtMost (likeness name t) p) terms

pub best_ratio-IsTop :
    (name : String) (terms : List String) → IsTop name terms (best_ratio name terms)
best_ratio-IsTop name [] = tt
best_ratio-IsTop name (t ∷ ts) =
    let here = likeness name t in
    let best = best_ratio name ts in
    elim (Bool-cases (less best here)) [
      | inl better ↦ subst (IsTop name (t ∷ ts)) (sym (best_of_better name t ts better)) (
        omega arith,
        All-map ts
            (λ u le.
              AtMost-trans (likeness name u) best here (best_ratio-IsProper name ts).1 le
                (less-AtMost best here better))
            (best_ratio-IsTop name ts),
      )
      | inr worse ↦
          subst (IsTop name (t ∷ ts)) (sym (best_of_worse name t ts worse))
            (not_less-AtMost best here worse, best_ratio-IsTop name ts)
    ]

-- a best ratio over 0 is that of one of the terms
pub best_ratio-In :
    (name : String) (terms : List String)
    → 1 ≤ (best_ratio name terms).num
    → (t : String) × In t terms × (best_ratio name terms ≡ likeness name t)
unfolding best_ratio
best_ratio-In name [] h = ground arith
best_ratio-In name (t ∷ ts) h = elim (Bool-cases (less (best_ratio name ts) (likeness name t))) [
  | inl better ↦ (t, inl refl, rw better refl)
  | inr not_better ↦
      let (u, there, same) = best_ratio-In name ts (rw not_better at h) in
      (u, inr there, rw not_better same)
]
