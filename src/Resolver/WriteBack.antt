-- ===== src/Resolver/WriteBack.antt =====
-- resolver/funnel.py: `Resolver.confirm`, followed by `Resolver.resolve`.
use margin_mvp.Base.{
  ◌≡◌, refl, ap, sym, ◌∙◌, ◌≢◌, subst, inl, inr, none, String, string_eq, Option-cases,
}
use margin_mvp.Base.Dict.{Dict, lookup}
use margin_mvp.Base.Exec.{Result, ok, err, ◌>>=◌}
use margin_mvp.Base.Result.{Result-cases}
use margin_mvp.Base.Text.{casefold}
use margin_mvp.Base.Casefold.{casefold_twice}
use margin_mvp.Graph.Model.{EdgeProvenance}
use margin_mvp.Graph.Client.{Client}
use margin_mvp.Graph.Client.Edges.{link_column_to_metric}
use margin_mvp.Graph.Client.Aliases.{metric_aliases, add_metric_alias}
use margin_mvp.Graph.Client.WriteBack.{add_metric_alias_lem}
use margin_mvp.Ingestion.Ir.{ObservedColumn}
use margin_mvp.Resolver.Funnel.{Config, World, on_client, confirm, resolve, linked_to}
use margin_mvp.Resolver.Tiers.{resolve-linked}

module _ (column : ObservedColumn) (key : String) (prov : EdgeProvenance) (w : World) where
  abbrev linked : Result (Unit {0}) × Client
  linked = link_column_to_metric column.system column.table column.name key prov w.client

  abbrev taught : Result (Unit {0}) × Client
  taught = add_metric_alias key (casefold column.name) linked.1

  confirm-eq-ok :
      (confirm column key prov w).0 ≡ ok tt
      → (taught.0 ≡ ok tt) × ((confirm column key prov w).1.client ≡ taught.1)
  unfolding confirm on_client ◌>>=◌
  confirm-eq-ok h = elim (Result-cases linked.0) [
    | inl (_, done) ↦
        let step : confirm column key prov w ≡ (taught.0, record w { client = taught.1 }) =
          rw done refl in
        (ap (λ p. p.0) (sym step) ∙ h, ap (λ p. p.1.client) step)
    | inr (e, failed) ↦ let raised : (confirm column key prov w).0 ≡ err e = rw failed refl in cc
  ]

  -- Resolver.confirm, when it returns, and if the aliases of the graph can then be read: every column whose
  -- name is the confirmed one up to case resolves to AUTO_LINKED, and the world stays as it is.
  pub resolve-confirm :
      (config : Config) (other : ObservedColumn) (index : Dict String String)
      → (confirm column key prov w).0 ≡ ok tt
      → metric_aliases (confirm column key prov w).1.client ≡ ok index
      → casefold other.name ≡ casefold column.name
      → (hit : String) × (resolve config other (confirm column key prov w).1
          ≡ (ok (linked_to other hit), (confirm column key prov w).1))
  resolve-confirm config other index h read same =
      let (returned, client) = confirm-eq-ok h in
      let there =
        add_metric_alias_lem key (casefold column.name) linked.1 index returned
          (ap metric_aliases (sym client) ∙ read) in
      let there' : lookup (casefold other.name) index ≢ none =
        subst (λ k. lookup k index ≢ none) (casefold_twice column.name ∙ sym same) there in
      elim (Option-cases (lookup (casefold other.name) index)) [
        | inl miss ↦ elim (there' miss) [ ]
        | inr (hit, found) ↦
            (hit, resolve-linked config other (confirm column key prov w).1 index hit read found)
      ]
