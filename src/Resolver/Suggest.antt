-- ===== src/Resolver/Suggest.antt =====
-- resolver/suggest.py: the suggesters of tier 2.
-- A score is a multiple of 1/10000, since `round(best, 4)` makes it one, and is kept as that
-- multiple. A ratio that stands exactly between two of them is rounded to the even one.
use Prim.Native.Nat.{Ordering}
use Prim.Native.String.{compare}
use margin_mvp.Base.{
  ℕ, ◌+◌, ◌*◌, ◌/◌, ◌%◌, String, Bool, true, false, List, [], ◌∷◌, if◌then◌else◌, eqb, ltb,
}
use margin_mvp.Base.Dict.{Dict}
use margin_mvp.Base.Exec.{Result, ok, err, not_implemented_error}
use margin_mvp.Base.Text.{casefold}
use margin_mvp.Ingestion.Ir.{ObservedColumn}
use margin_mvp.Resolver.Matcher.{Ratio, ratio}

pub record Suggestion : Type 0 where
  pub metric_key : String
  pub score : ℕ

-- `Suggester`: what a suggester answers, or the exception that it raises
abbrev pub Suggester : Type 0
Suggester = ObservedColumn → Dict String (List String) → Result (List Suggestion)

unfoldable pub less : Ratio → Ratio → Bool
less p q = ltb (p.num * q.den) (q.num * p.den)

-- `max(…, default=0.0)` over the terms
unfoldable pub best_ratio : String → List String → Ratio
unfolding less casefold
best_ratio name [] = record { num = 0; den = 1 }
best_ratio name (t ∷ ts) =
    let best = best_ratio name ts in
    let here = ratio name (casefold t) in if less best here then here else best

-- `round(best, 4)`, in ten-thousandths
unfoldable pub round_4 : Ratio → ℕ
round_4 p =
    let q = p.num * 10000 / p.den in
    let r = p.num * 10000 % p.den in
    if ltb (2 * r) p.den
    then q
    else if ltb p.den (2 * r)
    then q + 1
    else if eqb (q % 2) 0
    then q
    else q + 1

-- the order of the sort key `(-score, metric_key)`
unfoldable pub comes_before : Suggestion → Suggestion → Bool
comes_before s t =
    if ltb t.score s.score
    then true
    else if ltb s.score t.score
    then false
    else elim (compare s.metric_key t.metric_key) [ Ordering.lt ↦ true | _ ↦ false ]

unfoldable pub insert_suggestion : Suggestion → List Suggestion → List Suggestion
unfolding comes_before
insert_suggestion s [] = s ∷ []
insert_suggestion s (t ∷ ts) =
    let later = insert_suggestion s ts in if comes_before t s then t ∷ later else s ∷ t ∷ ts

-- the loop of `suggest` and its sort: a metric that matches nothing is left out
unfoldable pub rank : String → Dict String (List String) → List Suggestion
unfolding best_ratio round_4 insert_suggestion
rank name [] = []
rank name ((metric_key, terms) ∷ rest) =
    let best = best_ratio name terms in
    let others = rank name rest in
    if ltb 0 best.num
    then insert_suggestion (record { metric_key = metric_key; score = round_4 best }) others
    else others

unfoldable pub string_similarity : Suggester
unfolding rank casefold
string_similarity column terms_by_metric = ok (rank (casefold column.name) terms_by_metric)

-- `EmbeddingSuggester`: a stub
unfoldable pub embedding : Suggester
embedding column terms_by_metric = err not_implemented_error
