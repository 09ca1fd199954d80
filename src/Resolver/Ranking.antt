-- ===== src/Resolver/Ranking.antt =====
-- resolver/suggest.py: the ranking of `StringSimilaritySuggester`.
use margin_mvp.Base.{
  ℕ, ◌+◌, ◌*◌, ◌/◌, ◌%◌, ◌≤◌, ◌<◌, ◌≡◌, true, false, List, [], ◌∷◌, String, arith, ltb, inl, inr,
  ◌⊎◌, Bool-cases,
}
use native.Mathlib.Nat.{le_trans, div-add-mod}
use margin_mvp.Base.Dict.{Dict}
use margin_mvp.Base.Text.{casefold}
use margin_mvp.Base.Lists.{All, All-map}
use margin_mvp.Resolver.Matcher.{Ratio, ratio}
use margin_mvp.Resolver.Matcher.Bounds.{IsProper, ratio-IsProper}
use margin_mvp.Resolver.Suggest.{
  Suggestion, best_ratio, less, round_4, comes_before, insert_suggestion, rank,
}

pub best_ratio-IsProper : (name : String) (terms : List String) → IsProper (best_ratio name terms)
unfolding best_ratio
best_ratio-IsProper name [] = ground arith
best_ratio-IsProper name (t ∷ ts) =
    elim (Bool-cases (less (best_ratio name ts) (ratio name (casefold t)))) [
      | inl better ↦ rw better (ratio-IsProper name (casefold t))
      | inr not_better ↦ rw not_better (best_ratio-IsProper name ts)
    ]

mul_mono : (d a b : ℕ) → a ≤ b → d * a ≤ d * b
mul_mono d a b h = grind arith

contradicts : (d n x r : ℕ) → n ≤ d → 1 ≤ d → x + r ≡ n * 10000 → d * 10001 ≤ x → ⊥
contradicts d n x r h k parts times = omega arith

quotient :
    (n d : ℕ)
    → n ≤ d
    → 1 ≤ d
    → (n * 10000 / d < 10000) ⊎ ((n * 10000 / d ≡ 10000) × (n * 10000 % d ≡ 0))
quotient n d h k =
    let parts : d * (n * 10000 / d) + n * 10000 % d ≡ n * 10000 = div-add-mod (n * 10000) d in
    elim (Bool-cases (ltb (n * 10000 / d) 10000)) [
      | inl under ↦ inl (ground arith)
      | inr over ↦
          let times : d * 10000 ≤ d * (n * 10000 / d) =
            mul_mono d 10000 (n * 10000 / d) (ground arith) in
          elim (Bool-cases (ltb 10000 (n * 10000 / d))) [
            | inl more ↦
                let times' = mul_mono d 10001 (n * 10000 / d) (ground arith) in
                elim (contradicts d n (d * (n * 10000 / d)) (n * 10000 % d) h k parts times') [ ]
            | inr same ↦ inr (ground arith, omega arith)
          ]
    ]

round_4-le : (p : Ratio) → IsProper p → round_4 p ≤ 10000
unfolding round_4
round_4-le p (h, k) = ground (arith, quotient p.num p.den)

-- the sort's order: by falling score
abbrev pub Falls : List Suggestion → Type 0
Falls [] = Unit
Falls (s ∷ ts) = All (λ t. t.score ≤ s.score) ts × Falls ts

insert-All :
    (bound : ℕ) (s : Suggestion) (ts : List Suggestion)
    → s.score ≤ bound
    → All (λ t. t.score ≤ bound) ts
    → All (λ t. t.score ≤ bound) (insert_suggestion s ts)
unfolding insert_suggestion
insert-All bound s [] h all = (h, tt)
insert-All bound s (t ∷ ts) h (one, all) = elim (Bool-cases (comes_before t s)) [
  | inl before ↦ rw before (one, insert-All bound s ts h all)
  | inr after ↦ rw after (h, (one, all))
]

before-le : (s t : Suggestion) → comes_before s t ≡ true → t.score ≤ s.score
unfolding comes_before
before-le s t h = ground arith

after-le : (s t : Suggestion) → comes_before s t ≡ false → s.score ≤ t.score
unfolding comes_before
after-le s t h = ground arith

insert-Falls : (s : Suggestion) (ts : List Suggestion) → Falls ts → Falls (insert_suggestion s ts)
unfolding insert_suggestion
insert-Falls s [] h = (tt, tt)
insert-Falls s (t ∷ ts) (top, h) = elim (Bool-cases (comes_before t s)) [
  | inl before ↦ rw before (insert-All t.score s ts (before-le t s before) top, insert-Falls s ts h)
  | inr after ↦
      rw after
        ((after-le t s after, All-map ts (λ u le. le_trans le (after-le t s after)) top), (top, h))
]

-- StringSimilaritySuggester.suggest: the suggestions stand by falling score, and no score is over 1.
pub rank_lem :
    (name : String) (terms : Dict String (List String))
    → Falls (rank name terms) × All (λ s. s.score ≤ 10000) (rank name terms)
unfolding rank
rank_lem name [] = (tt, tt)
rank_lem name ((key, terms) ∷ rest) =
    let (falls, bounded) = rank_lem name rest in
    let best = best_ratio name terms in
    let here : round_4 best ≤ 10000 = round_4-le best (best_ratio-IsProper name terms) in
    elim (Bool-cases (ltb 0 best.num)) [
      | inl some_match ↦
          rw some_match (
            insert-Falls _ (rank name rest) falls,
            insert-All 10000 _ (rank name rest) here bounded,
          )
      | inr no_match ↦ rw no_match (falls, bounded)
    ]
