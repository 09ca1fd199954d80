-- ===== src/Resolver/Ranked.antt =====
-- resolver/suggest.py: which metrics `StringSimilaritySuggester` ranks.
use native.Mathlib.Nat.{mul-le-mul_left}
use margin_mvp.Base.{
  refl, ap, sym, subst, ◌*◌, ◌≤◌, arith, ◌≡◌, refl, ◌↔◌, ◌⊎◌, inl, inr, List, [], ◌∷◌, String, ltb,
  Bool-cases,
}
use margin_mvp.Base.Dict.{Dict}
use margin_mvp.Base.Lists.{In, All, All-map, All_of_In}
use margin_mvp.Resolver.Matcher.{Ratio}
use margin_mvp.Resolver.Likeness.{
  AtMost, likeness, IsNearest, round_4-IsNearest, IsTop, best_ratio-IsTop, best_ratio-In,
}
use margin_mvp.Resolver.Ranking.{best_ratio-IsProper}
use margin_mvp.Resolver.Suggest.{
  Suggestion, best_ratio, round_4, comes_before, insert_suggestion, rank,
}

insert-In :
    (s t : Suggestion) (ts : List Suggestion) → In t (insert_suggestion s ts) ↔ ((t ≡ s) ⊎ In t ts)
unfolding insert_suggestion
insert-In s t [] = ((λ h. h), λ h. h)
insert-In s t (u ∷ ts) =
    let (into, back) = insert-In s t ts in
    elim (Bool-cases (comes_before u s)) [
      | inl before ↦ rw before (
        (λ h. elim h [
          | inl e ↦ inr (inl e)
          | inr k ↦ elim (into k) [ inl e ↦ inl e | inr m ↦ inr (inr m) ]
        ]),
        λ h. elim h [
          | inl e ↦ inr (back (inl e))
          | inr k ↦ elim k [ inl e ↦ inl e | inr m ↦ inr (back (inr m)) ]
        ],
      )
      | inr after ↦ rw after ((λ h. h), λ h. h)
    ]

-- the suggestion of a metric that has a term like the name: the score is nearest to the ratio of its best term
abbrev pub Matches : String → Suggestion → String × List String → Type 0
Matches name s (key, terms) =
    (s.metric_key ≡ key)
    × ((t : String) × In t terms
        × (1 ≤ (likeness name t).num)
        × IsTop name terms (likeness name t)
        × IsNearest (likeness name t) s.score)

-- no term of the metric is at all like the name
abbrev pub Unlike : String → List String → Type 0
Unlike name terms = All (λ t. (likeness name t).num ≡ 0) terms

abbrev here : String → String × List String → Suggestion
here name (key, terms) = record { metric_key = key; score = round_4 (best_ratio name terms) }

here-Matches :
    (name key : String) (terms : List String)
    → 1 ≤ (best_ratio name terms).num
    → Matches name (here name (key, terms)) (key, terms)
here-Matches name key terms h =
    let (t, there, same) = best_ratio-In name terms h in
    let near = round_4-IsNearest (best_ratio name terms) (best_ratio-IsProper name terms).1 in
    (
      refl,
      (
        t,
        there,
        subst (λ (p : Ratio). 1 ≤ p.num) same h,
        subst (IsTop name terms) same (best_ratio-IsTop name terms),
        subst (λ p. IsNearest p (round_4 (best_ratio name terms))) same near,
      ),
    )

none_above : (p q : Ratio) → AtMost p q → q.num ≡ 0 → 1 ≤ q.den → p.num ≡ 0
none_above p q h e k =
    let none_of_q : q.num * p.den ≡ 0 * p.den = ap (λ n. n * p.den) e in
    omega (arith, none_of_q, mul-le-mul_left p.num k)

best_ratio-Unlike :
    (name : String) (terms : List String) → (best_ratio name terms).num ≡ 0 → Unlike name terms
best_ratio-Unlike name terms e =
    All-map terms
      (λ t le.
        none_above (likeness name t) (best_ratio name terms) le e
          (best_ratio-IsProper name terms).1)
      (best_ratio-IsTop name terms)

-- a suggestion for each metric in turn, or none where no term is like the name
abbrev pub Covers : String → List Suggestion → String × List String → Type 0
Covers name ranked (key, terms) =
    ((s : Suggestion) × In s ranked × Matches name s (key, terms)) ⊎ Unlike name terms

rank_step :
    (name key : String) (terms : List String) (rest : Dict String (List String))
    → ((1 ≤ (best_ratio name terms).num)
        × (rank name ((key, terms) ∷ rest)
            ≡ insert_suggestion (here name (key, terms)) (rank name rest)))
      ⊎ (((best_ratio name terms).num ≡ 0) × (rank name ((key, terms) ∷ rest) ≡ rank name rest))
unfolding rank
rank_step name key terms rest = elim (Bool-cases (ltb 0 (best_ratio name terms).num)) [
  | inl some_match ↦ inl (ground arith, rw some_match refl)
  | inr no_match ↦ inr (ground arith, rw no_match refl)
]

rank-Matches :
    (name : String) (metrics : Dict String (List String)) (s : Suggestion)
    → In s (rank name metrics)
    → (entry : String × List String) × In entry metrics × Matches name s entry
unfolding rank
rank-Matches name [] s there = absurd there
rank-Matches name ((key, terms) ∷ rest) s there =
    let later : In s (rank name rest)
        → (entry : String × List String) × In entry ((key, terms) ∷ rest) × Matches name s entry =
      λ k. let (entry, at, matches) = rank-Matches name rest s k in (entry, inr at, matches) in
    elim (rank_step name key terms rest) [
      | inl (like, step) ↦
          elim ((insert-In (here name (key, terms)) s (rank name rest)).0
            (subst (In s) step there)) [
              | inl same ↦ (
                (key, terms),
                inl refl,
                subst (λ x. Matches name x (key, terms)) (sym same)
                    (here-Matches name key terms like),
              )
              | inr k ↦ later k
            ]
      | inr (_, step) ↦ later (subst (In s) step there)
    ]

Covers-more :
    (name : String) (entry : String × List String) (xs ys : List Suggestion)
    → ((s : Suggestion) → In s xs → In s ys)
    → Covers name xs entry
    → Covers name ys entry
Covers-more name (key, terms) xs ys more (inl (s, there, matches)) = inl (s, more s there, matches)
Covers-more name (key, terms) xs ys more (inr unlike) = inr unlike

rank-Covers :
    (name : String) (metrics : Dict String (List String))
    → All (Covers name (rank name metrics)) metrics
rank-Covers name [] = tt
rank-Covers name ((key, terms) ∷ rest) = elim (rank_step name key terms rest) [
  | inl (like, step) ↦
      let ranked = rank name rest in
      let enter : (s : Suggestion)
          → (s ≡ here name (key, terms)) ⊎ In s ranked
          → In s (insert_suggestion (here name (key, terms)) ranked) =
        λ s. (insert-In (here name (key, terms)) s ranked).1 in
      subst (λ xs. All (Covers name xs) ((key, terms) ∷ rest)) (sym step)
        (
          inl (here name (key, terms), enter _ (inl refl), here-Matches name key terms like),
          All-map rest (λ entry. Covers-more name entry (rank name rest) _ (λ s k. enter s (inr k)))
              (rank-Covers name rest),
        )
  | inr (none_like, step) ↦
      subst (λ xs. All (Covers name xs) ((key, terms) ∷ rest)) (sym step)
        (inr (best_ratio-Unlike name terms none_like), rank-Covers name rest)
]

-- StringSimilaritySuggester.suggest: each suggestion is for one of the metrics and scores the ratio over 0 of
-- the term that is most like the column's name, to the nearest ten-thousandth; and each metric has such a
-- suggestion, unless none of its terms has a ratio over 0 to the name.
pub rank_exact :
    (name : String) (metrics : Dict String (List String))
    → All
        (λ s. (entry : String × List String) × In entry metrics × Matches name s entry)
        (rank name metrics)
      × All (Covers name (rank name metrics)) metrics
rank_exact name metrics =
    (All_of_In _ (rank name metrics) (rank-Matches name metrics), rank-Covers name metrics)
