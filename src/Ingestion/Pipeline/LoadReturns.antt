-- ===== src/Ingestion/Pipeline/LoadReturns.antt =====
-- ingestion/pipeline.py: when `load_bundle` returns.
use margin_mvp.Base.{
  ℕ, String, ◌≡◌, refl, ap, sym, ◌∙◌, subst, inl, inr, List, [], ◌∷◌, string_eq, pair_eq,
  Bool-cases, Option-cases, leb,
}
use margin_mvp.Base.Lists.{take}
use margin_mvp.Base.Dict.{Dict, lookup}
use margin_mvp.Base.Exec.{Exec, ok, pure, ◌>>=◌, ◌>>◌}
use margin_mvp.Base.Returns.{Returns, bind-Returns, pure-Returns}
use margin_mvp.Base.Text.{casefold}
use margin_mvp.Value.{Props}
use margin_mvp.Graph.Model.{EdgeProvenance}
use margin_mvp.Graph.Client.{Client}
use margin_mvp.Graph.Client.Aliases.{metric_aliases, metric_terms, index_metrics, collect_terms}
use margin_mvp.Ingestion.Ir.{ObservedColumn, ParsedBundle, iter_columns}
use margin_mvp.Ingestion.Pipeline.{
  ColumnKey, edge_provenance, owner_of, load_records, link_outcome, resolve_columns, load_bundle,
}
use margin_mvp.Ingestion.Pipeline.Ready.{Ready}
use margin_mvp.Ingestion.Pipeline.Returning.{Fits, load_records-Returns, link_outcome-Returns}
use margin_mvp.Resolver.Funnel.{
  Config, World, Resolution, on_client, resolve, resolve_unmatched, suggest_or_escalate, escalate,
}
use margin_mvp.Resolver.Suggest.{Suggestion}
use margin_mvp.Resolver.Tiers.{resolve-linked, resolve-unmatched, client-resolve}

-- the suggester answers on whatever it is given
abbrev pub Suggests : Config → Type 0
Suggests config =
    (column : ObservedColumn) (terms : Dict String (List String))
    → (ranked : List Suggestion) × (config.suggester column terms ≡ ok ranked)

-- the alias index can be read
abbrev pub IsReadable : List Props → Type 0
IsReadable ms =
    ((index : Dict String String) × (index_metrics ms [] ≡ ok index))
    × ((terms : Dict String (List String)) × (collect_terms ms [] ≡ ok terms))

suggest_or_escalate_answers :
    (threshold : ℕ) (column : ObservedColumn) (ranked : List Suggestion) (w : World)
    → (r : Resolution) × ((suggest_or_escalate threshold column ranked w).0 ≡ ok r)
unfolding suggest_or_escalate escalate
suggest_or_escalate_answers threshold column [] w = (_, refl)
suggest_or_escalate_answers threshold column (top ∷ rest) w =
    elim (Bool-cases (leb threshold top.score)) [
      | inl over ↦ rw over (_, refl)
      | inr under ↦ rw under (_, refl)
    ]

module _ (config : Config) (suggests : Suggests config) (subtypes types : List String)
    (ms : List Props) (readable : IsReadable ms) where
  abbrev ReadyWorld : World → Type 0
  ReadyWorld w = Ready subtypes types ms w.client

  unmatched_answers :
      (column : ObservedColumn) (w : World) (terms : Dict String (List String))
      → metric_terms w.client ≡ ok terms
      → (r : Resolution) × ((resolve_unmatched config column w).0 ≡ ok r)
  unfolding resolve_unmatched
  unmatched_answers column w terms read = elim (Bool-cases column.has_dictionary) [
    | inl documented ↦ rw documented (_, refl)
    | inr plain ↦
        let (ranked, said) = suggests column terms in
        rw (plain, read, said)
          (suggest_or_escalate_answers config.threshold column (take config.top_k ranked) w)
  ]

  pub resolve_answers :
      (column : ObservedColumn) (w : World)
      → ReadyWorld w
      → (r : Resolution) × ((resolve config column w).0 ≡ ok r)
  unfolding metric_aliases metric_terms
  resolve_answers column w (_, _, _, same) =
      let ((index, indexed), (terms, collected)) = readable in
      let read : metric_aliases w.client ≡ ok index = ap (λ m. index_metrics m []) same ∙ indexed in
      elim (Option-cases (lookup (casefold column.name) index)) [
        | inl miss ↦
            let (r, said) =
              unmatched_answers column w terms (ap (λ m. collect_terms m []) same ∙ collected) in
            (r, ap (λ x. x.0) (resolve-unmatched config column w index read miss) ∙ said)
        | inr (hit, found) ↦
            (_, ap (λ x. x.0) (resolve-linked config column w index hit read found))
      ]

  resolve-Returns : (column : ObservedColumn) → Returns ReadyWorld (resolve config column)
  resolve-Returns column w ready =
      let (r, said) = resolve_answers column w ready in
      (r, said, subst (Ready subtypes types ms) (sym (client-resolve config column w)) ready)

  on_client-Returns :
      {A : Type 0} (m : Exec Client A)
      → Returns (Ready subtypes types ms) m
      → Returns ReadyWorld (on_client m)
  unfolding on_client
  on_client-Returns m k w h = k w.client h

  resolve_columns-Returns :
      (prov : EdgeProvenance) (owners : Dict ColumnKey String) (cols : List ObservedColumn)
      → Returns ReadyWorld (resolve_columns config prov owners cols)
  unfolding resolve_columns
  resolve_columns-Returns prov owners [] = pure-Returns ReadyWorld []
  resolve_columns-Returns prov owners (col ∷ cols) =
      let others : Resolution → Exec World (List Resolution) =
        λ outcome. resolve_columns config prov owners cols >>= λ rest. pure (outcome ∷ rest) in
      let link : Resolution → Exec World (Unit {0}) =
        λ outcome. on_client (link_outcome prov owners col outcome) in
      bind-Returns ReadyWorld (resolve config col) (λ outcome. link outcome >> others outcome)
        (resolve-Returns col)
        (λ outcome.
          bind-Returns ReadyWorld (link outcome) (λ _. others outcome)
            (on_client-Returns (link_outcome prov owners col outcome)
              (link_outcome-Returns subtypes types ms prov owners col outcome))
            (λ _.
              bind-Returns ReadyWorld (resolve_columns config prov owners cols)
                (λ rest. pure (outcome ∷ rest)) (resolve_columns-Returns prov owners cols)
                (λ rest. pure-Returns ReadyWorld (outcome ∷ rest))))

  pub load_bundle-Returns :
      (b : ParsedBundle) → Fits types b → Returns ReadyWorld (load_bundle config b)
  unfolding load_bundle
  load_bundle-Returns b fits =
      let prov = edge_provenance b.provenance in
      bind-Returns ReadyWorld (on_client (load_records prov b))
        (λ _. resolve_columns config prov (owner_of b.entities []) (iter_columns b))
        (on_client-Returns (load_records prov b)
          (load_records-Returns subtypes types ms prov b fits))
        (λ _. resolve_columns-Returns prov (owner_of b.entities []) (iter_columns b))
