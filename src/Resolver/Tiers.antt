-- ===== src/Resolver/Tiers.antt =====
-- resolver/funnel.py: `Resolver.resolve`, tier by tier.
use margin_mvp.Base.{
  String, ℕ, ◌≤◌, ◌<◌, ◌≡◌, refl, ap, inl, inr, true, none, some, List, [], ◌∷◌, ◌++◌, arith, leb,
  Bool-cases, Option-cases, suc, ◌≢◌,
}
use margin_mvp.Base.{◌≢◌, zero, suc, string_eq}
use margin_mvp.Base.Text.{casefold}
use margin_mvp.Base.Dict.{Dict, lookup}
use margin_mvp.Graph.Client.Aliases.{metric_aliases, metric_terms}
use margin_mvp.Ingestion.Ir.{ObservedColumn}
use margin_mvp.Base.Lists.{length, take}
use margin_mvp.Base.Exec.{Result, Error, ok, err}
use margin_mvp.Base.Result.{Result-cases}
use margin_mvp.Resolver.Suggest.{Suggestion}
use margin_mvp.Resolver.Funnel.{
  perfect_score, auto_linked, suggested, escalated, documented, Resolution, Config, World, resolve,
  resolve_unmatched, suggest_or_escalate, escalate, enqueue, linked_to, perfect_score,
}

module _ (config : Config) (column : ObservedColumn) (w : World) where
  pub resolve-unread :
      (e : Error) → metric_aliases w.client ≡ err e → resolve config column w ≡ (err e, w)
  unfolding resolve
  resolve-unread e h = rw (h, resolve) refl

  pub resolve-linked :
      (index : Dict String String) (hit : String)
      → metric_aliases w.client ≡ ok index
      → lookup (casefold column.name) index ≡ some hit
      → resolve config column w ≡ (ok (linked_to column hit), w)
  unfolding resolve
  resolve-linked index hit read found = rw (read, found, resolve) refl

  pub resolve-unmatched :
      (index : Dict String String)
      → metric_aliases w.client ≡ ok index
      → lookup (casefold column.name) index ≡ none
      → resolve config column w ≡ resolve_unmatched config column w
  unfolding resolve
  resolve-unmatched index read miss = rw (read, miss, resolve) refl

-- the queue after a resolution was returned
unfoldable pub queued : Resolution → List Resolution → List Resolution
queued r queue = elim r.tier [ escalated ↦ queue ++ r ∷ [] | _ ↦ queue ]

-- how a call may end, seen from the world before it
abbrev pub Settled : World → Result Resolution × World → Type 0
Settled w (ok r, w') = w' ≡ record w { queue = queued r w.queue }
Settled w (err e, w') = w' ≡ w

-- the best suggestion, if there is one, is under the threshold
abbrev pub Below : ℕ → List Suggestion → Type 0
Below threshold [] = Unit
Below threshold (top ∷ rest) = top.score < threshold

suggest_or_escalate-Settled :
    (threshold : ℕ) (column : ObservedColumn) (ranked : List Suggestion) (w : World)
    → Settled w (suggest_or_escalate threshold column ranked w)
unfolding suggest_or_escalate escalate enqueue queued
suggest_or_escalate-Settled threshold column [] w = refl
suggest_or_escalate-Settled threshold column (top ∷ rest) w = ground arith

resolve_unmatched-Settled :
    (config : Config) (column : ObservedColumn) (w : World)
    → Settled w (resolve_unmatched config column w)
unfolding resolve_unmatched queued
resolve_unmatched-Settled config column w = elim (Bool-cases column.has_dictionary) [
  | inl dict ↦ rw dict refl
  | inr bare ↦ elim (Result-cases (metric_terms w.client)) [
    | inr (e, failed) ↦ rw (bare, failed) refl
    | inl (terms, read) ↦ elim (Result-cases (config.suggester column terms)) [
      | inr (e, failed) ↦ rw (bare, read, failed) refl
      | inl (ranked, scored) ↦
          rw (bare, read, scored)
            (suggest_or_escalate-Settled config.threshold column (take config.top_k ranked) w)
    ]
  ]
]

-- Resolver.resolve: the client is not written to; when it returns, the queue has grown by the returned
-- resolution if that is ESCALATED and is as it was otherwise; when it raises, the queue is as it was.
pub resolve-Settled :
    (config : Config) (column : ObservedColumn) (w : World) → Settled w (resolve config column w)
unfolding queued
resolve-Settled config column w = elim (Result-cases (metric_aliases w.client)) [
  | inr (e, failed) ↦ rw (resolve-unread config column w e failed) refl
  | inl (index, read) ↦ elim (Option-cases (lookup (casefold column.name) index)) [
    | inl miss ↦
        rw (resolve-unmatched config column w index read miss)
          (resolve_unmatched-Settled config column w)
    | inr (hit, found) ↦ rw (resolve-linked config column w index hit read found) refl
  ]
]

client-Settled :
    (w : World) (end : Result Resolution × World) → Settled w end → end.1.client ≡ w.client
client-Settled w (ok r, w') h = ap (λ x. x.client) h
client-Settled w (err e, w') h = ap (λ x. x.client) h

pub client-resolve :
    (config : Config) (column : ObservedColumn) (w : World)
    → (resolve config column w).1.client ≡ w.client
client-resolve config column w =
    client-Settled w (resolve config column w) (resolve-Settled config column w)

length-take : {A : Type 0} (n : ℕ) (xs : List A) → length (take n xs) ≤ n
length-take zero xs = ground arith
length-take (suc n) [] = ground arith
length-take (suc n) (x ∷ xs) = ground (arith, length-take n xs)

-- what a resolution says, by its tier
abbrev pub Says : Config → Resolution → Type 0
Says config r = elim r.tier [
  | auto_linked ↦ (r.score ≡ perfect_score) × (r.alternatives ≡ []) × (r.metric_key ≢ none)
  | suggested ↦
      (top : Suggestion) × (rest : List Suggestion) × (r.alternatives ≡ top ∷ rest)
      × (r.metric_key ≡ some top.metric_key)
      × (r.score ≡ top.score)
      × (config.threshold ≤ r.score)
      × (length r.alternatives ≤ config.top_k)
  | escalated ↦
      (r.metric_key ≡ none)
      × (length r.alternatives ≤ config.top_k)
      × Below config.threshold r.alternatives
  | documented ↦ (r.metric_key ≡ none) × (r.alternatives ≡ []) × (r.column.has_dictionary ≡ true)
]

abbrev pub Answers : Config → Result Resolution → Type 0
Answers config (ok r) = Says config r
Answers config (err e) = Unit

suggest_or_escalate-Says :
    (config : Config) (column : ObservedColumn) (ranked : List Suggestion) (w : World)
    → length ranked ≤ config.top_k
    → Answers config (suggest_or_escalate config.threshold column ranked w).0
unfolding suggest_or_escalate escalate
suggest_or_escalate-Says config column [] w short = (refl, short, tt)
suggest_or_escalate-Says config column (top ∷ rest) w short =
    elim (Bool-cases (leb config.threshold top.score)) [
      | inl high ↦ rw high (top, rest, refl, refl, refl, ground arith, short)
      | inr low ↦ rw low (refl, short, ground arith)
    ]

resolve_unmatched-Says :
    (config : Config) (column : ObservedColumn) (w : World)
    → Answers config (resolve_unmatched config column w).0
unfolding resolve_unmatched
resolve_unmatched-Says config column w = elim (Bool-cases column.has_dictionary) [
  | inl dict ↦ rw dict (refl, refl, refl)
  | inr bare ↦ elim (Result-cases (metric_terms w.client)) [
    | inr (e, failed) ↦ rw (bare, failed) tt
    | inl (terms, read) ↦ elim (Result-cases (config.suggester column terms)) [
      | inr (e, failed) ↦ rw (bare, read, failed) tt
      | inl (ranked, scored) ↦
          rw (bare, read, scored)
            (suggest_or_escalate-Says config column (take config.top_k ranked) w
              (length-take config.top_k ranked))
    ]
  ]
]

-- Resolver.resolve, when it returns, whatever the suggester does: AUTO_LINKED has a metric, the perfect score
-- and no alternatives; SUGGESTED repeats its first alternative, whose score is at least the threshold;
-- ESCALATED has no metric, and its first alternative, if any, is under the threshold; both have at most
-- `top_k` alternatives; DOCUMENTED has no metric and no alternatives, and its column has a dictionary.
pub resolve-Says :
    (config : Config) (column : ObservedColumn) (w : World)
    → Answers config (resolve config column w).0
resolve-Says config column w = elim (Result-cases (metric_aliases w.client)) [
  | inr (e, failed) ↦ rw (resolve-unread config column w e failed) tt
  | inl (index, read) ↦ elim (Option-cases (lookup (casefold column.name) index)) [
    | inl miss ↦
        rw (resolve-unmatched config column w index read miss)
          (resolve_unmatched-Says config column w)
    | inr (hit, found) ↦
        rw (resolve-linked config column w index hit read found) (refl, refl, λ e. cc)
  ]
]
