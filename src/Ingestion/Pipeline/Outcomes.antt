-- ===== src/Ingestion/Pipeline/Outcomes.antt =====
-- resolver/funnel.py: what a resolution depends on, during a load.
use margin_mvp.Base.{
  String, ◌≡◌, refl, ap, sym, ◌∙◌, inl, inr, List, [], ◌∷◌, string_eq, pair_eq, Bool-cases,
  Option-cases, ℕ, leb,
}
use margin_mvp.Base.Lists.{take}
use margin_mvp.Base.Dict.{Dict, lookup}
use margin_mvp.Base.Exec.{ok}
use margin_mvp.Base.Text.{casefold}
use margin_mvp.Value.{Props}
use margin_mvp.Graph.Client.Aliases.{metric_aliases, metric_terms, index_metrics, collect_terms}
use margin_mvp.Ingestion.Ir.{ObservedColumn}
use margin_mvp.Ingestion.Pipeline.Ready.{Ready}
use margin_mvp.Ingestion.Pipeline.LoadReturns.{Suggests, IsReadable}
use margin_mvp.Resolver.Funnel.{
  Config, World, resolve, resolve_unmatched, suggest_or_escalate, escalate,
}
use margin_mvp.Resolver.Tiers.{resolve-linked, resolve-unmatched}

suggest_or_escalate_same :
    (threshold : ℕ) (column : ObservedColumn) (ranked : List _) (w v : World)
    → (suggest_or_escalate threshold column ranked w).0
      ≡ (suggest_or_escalate threshold column ranked v).0
unfolding suggest_or_escalate escalate
suggest_or_escalate_same threshold column [] w v = refl
suggest_or_escalate_same threshold column (top ∷ rest) w v =
    elim (Bool-cases (leb threshold top.score)) [
      | inl over ↦ rw over refl
      | inr under ↦ rw under refl
    ]

module _ (config : Config) (suggests : Suggests config) (subtypes types : List String)
    (ms : List Props) (readable : IsReadable ms) where
  abbrev ReadyWorld : World → Type 0
  ReadyWorld w = Ready subtypes types ms w.client

  unmatched_same :
      (column : ObservedColumn) (w v : World) (terms : Dict String (List String))
      → metric_terms w.client ≡ ok terms
      → metric_terms v.client ≡ ok terms
      → (resolve_unmatched config column w).0 ≡ (resolve_unmatched config column v).0
  unfolding resolve_unmatched
  unmatched_same column w v terms read reads = elim (Bool-cases column.has_dictionary) [
    | inl documented ↦ rw documented refl
    | inr plain ↦
        let (ranked, said) = suggests column terms in
        rw (plain, read, reads, said)
          (suggest_or_escalate_same config.threshold column (take config.top_k ranked) w v)
  ]

  -- worlds with the same Metric nodes resolve a column in the same way
  pub resolve_same :
      (column : ObservedColumn) (w v : World)
      → ReadyWorld w
      → ReadyWorld v
      → (resolve config column w).0 ≡ (resolve config column v).0
  unfolding metric_aliases metric_terms
  resolve_same column w v (_, _, _, same) (_, _, _, same') =
      let ((index, indexed), (terms, collected)) = readable in
      let read : metric_aliases w.client ≡ ok index = ap (λ m. index_metrics m []) same ∙ indexed in
      let reads : metric_aliases v.client ≡ ok index =
        ap (λ m. index_metrics m []) same' ∙ indexed in
      elim (Option-cases (lookup (casefold column.name) index)) [
        | inl miss ↦
            ap (λ x. x.0) (resolve-unmatched config column w index read miss)
            ∙ unmatched_same column w v terms (ap (λ m. collect_terms m []) same ∙ collected)
                (ap (λ m. collect_terms m []) same' ∙ collected)
            ∙ sym (ap (λ x. x.0) (resolve-unmatched config column v index reads miss))
        | inr (hit, found) ↦
            ap (λ x. x.0) (resolve-linked config column w index hit read found)
            ∙ sym (ap (λ x. x.0) (resolve-linked config column v index hit reads found))
      ]
