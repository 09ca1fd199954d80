-- ===== src/Tests/Resolver.antt =====
-- The resolver's tests, and instances of its theorems.
use margin_mvp.Base.{
  ℕ, ◌≤◌, String, ◌≡◌, refl, some, none, List, [], ◌∷◌, string_eq, list_eq, pair_eq, arith,
}
use margin_mvp.Base.Lists.{All, In}
use margin_mvp.Base.Dict.{Dict}
use margin_mvp.Base.Exec.{ok}
use margin_mvp.Graph.Store.Key.{node_key_eq, edge_ident_eq}
use margin_mvp.Resolver.Matcher.{matched, codes}
use margin_mvp.Resolver.Suggest.{rank, Suggestion}
use margin_mvp.Base.{◌↔◌}
use margin_mvp.Resolver.Ranked.{Matches, Covers, rank_exact}
use margin_mvp.Resolver.Ranking.{Falls, rank_lem}
use margin_mvp.Graph.Client.Aliases.{metric_aliases}
use margin_mvp.Base.Text.{casefold}
use margin_mvp.Resolver.Funnel.{resolve, confirm, linked_to}
use margin_mvp.Resolver.Tiers.{Settled, Answers, resolve-Settled, resolve-Says}
use margin_mvp.Resolver.WriteBack.{resolve-confirm}
use margin_mvp.Packs.Loader.{load_pack}
use margin_mvp.Tests.Data.{prov, named, config, world}

resolve-Settled_example : Settled world (resolve config (named "xyzzy") world)
resolve-Settled_example = resolve-Settled config (named "xyzzy") world

resolve-Says_example : Answers config (resolve config (named "wieght") world).0
resolve-Says_example = resolve-Says config (named "wieght") world

abbrev index : Dict String String
index = ("weight", "widgets.weight") ∷ ("wgt", "widgets.weight") ∷ ("heft", "widgets.weight") ∷ []

resolve-confirm_example :
    (hit : String) × (resolve config
        (named "HEFT")
        (confirm (named "Heft") "widgets.weight" prov world).1
      ≡ (ok (linked_to (named "HEFT") hit), (confirm (named "Heft") "widgets.weight" prov world).1))
unfolding confirm load_pack metric_aliases casefold string_eq node_key_eq edge_ident_eq
    margin_mvp.Graph.Client.Edges.link_column_to_metric margin_mvp.Graph.Store.upsert_edge
    margin_mvp.Graph.Client.Aliases.add_metric_alias margin_mvp.Graph.Store.get_node
    margin_mvp.Base.Dict.lookup margin_mvp.Base.Text.split_once
    margin_mvp.Graph.Client.upsert_metric margin_mvp.Graph.Store.upsert_node
    margin_mvp.Base.Dict.update margin_mvp.Base.Dict.insert margin_mvp.Graph.Store.Key.node_key
    margin_mvp.Graph.Model.label margin_mvp.Graph.Client.Aliases.index_metrics
    margin_mvp.Graph.Store.nodes_by_label margin_mvp.Graph.Client.Aliases.index_metric
    margin_mvp.Value.to_text
resolve-confirm_example =
    resolve-confirm (named "Heft") "widgets.weight" prov world config (named "HEFT") index refl refl
      refl

abbrev terms : Dict String (List String)
terms = ("widgets.weight", "weight" ∷ []) ∷ ("widgets.length", "length" ∷ []) ∷ []

rank_lem_example : Falls (rank "wieght" terms) × All (λ s. s.score ≤ 10000) (rank "wieght" terms)
rank_lem_example = rank_lem "wieght" terms

abbrev candidate : Suggestion
candidate = record { metric_key = "widgets.weight"; score = 8333 }

rank_exact_example :
    All
      (λ s. (entry : String × List String) × In entry terms × Matches "wieght" s entry)
      (rank "wieght" terms)
    × All (Covers "wieght" (rank "wieght" terms)) terms
rank_exact_example = rank_exact "wieght" terms

ranking_of_wieght :
    rank "wieght" terms ≡ candidate ∷ record { metric_key = "widgets.length"; score = 5000 } ∷ []
unfolding rank margin_mvp.Resolver.Matcher.ratio
ranking_of_wieght = refl
