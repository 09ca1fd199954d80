-- ===== src/Tests/Graph.antt =====
-- The graph's tests, and instances of its theorems.
use margin_mvp.Base.{
  String, ◌≡◌, refl, ◌↔◌, ◌⊎◌, ◌≢◌, inl, inr, true, false, some, none, List, [], ◌∷◌, ◌==◌,
  string_eq, pair_eq, list_eq, if◌then◌else◌,
}
use margin_mvp.Base.Lists.{In}
use margin_mvp.Base.Dict.{lookup, Dict, insert, update, NodupKeys}
use margin_mvp.Base.Text.{casefold}
use margin_mvp.Base.Exec.{Result, ok, err, Error, attribute_error}
use margin_mvp.Value.{text, text_value, Props}
use margin_mvp.Graph.Model.{label, column, rel_name, measures}
use margin_mvp.Graph.Store.{Store, empty, upsert_node, upsert_edge, get_node, out_neighbors}
use margin_mvp.Graph.Store.Key.{node_key, node_key_eq, edge_ident_eq}
use margin_mvp.Graph.Store.Merge.{upsert_node_twice}
use margin_mvp.Graph.Store.Reading.{Merged, upsert_node-Merged}
use margin_mvp.Graph.Store.WellFormed.{
  IsWellFormed, upsert_node-IsWellFormed, reserved_property_breaks, empty-Holds,
}
use margin_mvp.Graph.Store.Neighbors.{Linked, out_neighbors_iff}
use margin_mvp.Graph.Client.{Client, init, on_store, column_key, MetricArgs}
use margin_mvp.Graph.Client.Read.{ResolvedColumn, resolve_column}
use margin_mvp.Graph.Client.ReadPath.{LeadsTo, HasKey, Reads, resolve_column_lem, neighbors_lem}
use margin_mvp.Graph.Client.Calls.{
  Call, run, run_all, upsert_entity, upsert_metric, upsert_column, link_column_to_metric,
  link_metric_to_entity,
}
use margin_mvp.Graph.Client.Steps.{IsSound}
use margin_mvp.Graph.Client.Safety.{calls-IsSound, run_atomic, init-IsSound}
use margin_mvp.Graph.Client.Aliases.{add_metric_alias, metric_aliases}
use margin_mvp.Graph.Client.Presence.{Present, upsert_node-Present, run_all-Present}
use margin_mvp.Graph.Client.WriteBack.{add_metric_alias_lem}
use margin_mvp.Graph.Neo4j.{check_ident}
use margin_mvp.Graph.Neo4j.Identifiers.{Line, is_ident, check_ident_iff}
use margin_mvp.Packs.Loader.{load_pack}
use margin_mvp.Tests.Data.{calls, w1, w2, red, widget, loaded, prov}
use margin_mvp.Base.{subst, sym}

calls-IsSound_example : IsSound (run_all calls init)
unfolding lookup string_eq
calls-IsSound_example = calls-IsSound calls (tt, (refl, (refl, (tt, tt))))

abbrev rejected_call : Call
rejected_call = upsert_entity "w2" (some "Ghost") none

run_atomic_example :
    ((run rejected_call init).0 ≡ ok tt) ⊎ ((e : Error) × (run rejected_call init ≡ (err e, init)))
unfolding lookup string_eq
run_atomic_example = run_atomic rejected_call init refl init-IsSound

abbrev one_node : Store
one_node = (upsert_node "Entity" w1 red widget empty).1

upsert_node_twice_example :
    upsert_node "Entity" w1 red widget one_node ≡ upsert_node "Entity" w1 red widget empty
upsert_node_twice_example = upsert_node_twice "Entity" w1 red widget empty

abbrev repainted : Props
repainted = ("colour", text_value "blue") ∷ []

upsert_node-Merged_example :
    ((node : Props) × (get_node "Entity" w1 (upsert_node "Entity" w1 repainted widget one_node).1
        ≡ some node)
      × Merged "Entity" w1 repainted widget one_node ("Entity" ∷ "Widget" ∷ []) node)
    × ((node_key "Entity" w2 ≡ node_key "Entity" w1)
        ⊎ (get_node "Entity" w2 (upsert_node "Entity" w1 repainted widget one_node).1
            ≡ get_node "Entity" w2 one_node))
unfolding upsert_node lookup insert update string_eq get_node node_key_eq node_key
    margin_mvp.Graph.Store.union
upsert_node-Merged_example =
    upsert_node-Merged "Entity" w1 repainted widget one_node (refl, tt) refl
      ("Entity" ∷ "Widget" ∷ []) refl "Entity" w2

abbrev linked : Store
linked = (upsert_edge "CONTAINS" "Entity" w1 "Entity" w2 (("role", "part") ∷ []) red one_node).1

upsert_node-IsWellFormed_example :
    ((upsert_node "Entity" w1 red widget empty).0 ≡ ok tt)
    × IsWellFormed (upsert_node "Entity" w1 red widget empty).1
unfolding lookup string_eq
upsert_node-IsWellFormed_example =
    upsert_node-IsWellFormed "Entity" w1 red widget empty refl (empty-Holds _)

abbrev bad_props : Props
bad_props = ("_labels", text_value "x") ∷ []

reserved_property_breaks_example :
    ((upsert_node "Entity" w1 bad_props widget empty).0 ≡ err attribute_error)
    × ((upsert_node "Entity" w1 red widget (upsert_node "Entity" w1 bad_props widget empty).1).0
        ≡ err attribute_error)
unfolding lookup string_eq
reserved_property_breaks_example =
    reserved_property_breaks "Entity" w1 bad_props red widget widget (text "x") empty (refl, tt)
      refl refl

out_neighbors_iff_example :
    In (red, red) (out_neighbors "Entity" w1 "CONTAINS" linked)
    ↔ Linked (node_key "Entity" w1) "CONTAINS" linked.nodes linked.edges (red, red)
unfolding upsert_edge upsert_node lookup insert update string_eq
out_neighbors_iff_example = out_neighbors_iff "Entity" w1 "CONTAINS" linked (red, red) (refl, tt)

abbrev taught : Result (Unit {0}) × Client
taught = add_metric_alias "widgets.weight" "Mass" loaded

abbrev index : Dict String String
index = ("weight", "widgets.weight") ∷ ("wgt", "widgets.weight") ∷ ("mass", "widgets.weight") ∷ []

add_metric_alias_lem_example : lookup (casefold "Mass") index ≢ none
unfolding add_metric_alias metric_aliases load_pack string_eq node_key_eq edge_ident_eq get_node
    lookup margin_mvp.Base.Text.split_once margin_mvp.Graph.Client.upsert_metric upsert_node update
    insert node_key label margin_mvp.Graph.Client.Aliases.index_metrics
    margin_mvp.Graph.Store.nodes_by_label margin_mvp.Graph.Client.Aliases.index_metric casefold
    margin_mvp.Value.to_text
add_metric_alias_lem_example = add_metric_alias_lem "widgets.weight" "Mass" loaded index refl refl

check_ident_iff_example : (check_ident "CONTAINS" ≡ ok "CONTAINS") ↔ Line is_ident "CONTAINS"
check_ident_iff_example = check_ident_iff "CONTAINS"

abbrev with_node : Client
with_node = (on_store (upsert_node "Entity" w1 red widget) init).1

run_all-Present_example : Present "Entity" w1 (run_all calls with_node)
run_all-Present_example =
    run_all-Present "Entity" w1 calls with_node (upsert_node-Present "Entity" w1 red widget init)

-- a column that measures the metric of the pack, which applies to an entity
abbrev weight_args : MetricArgs
weight_args = record {
  formula = text_value "m";
  unit = text_value "gram";
  numerator_def = text_value "m";
  denominator_def = text_value "1";
  provenance = text_value "test";
}

abbrev reading_calls : List Call
reading_calls =
    upsert_column "sys" "t" "wgt" none [] false
    ∷ upsert_metric "widgets.weight" weight_args none
    ∷ upsert_entity "w1" none none
    ∷ link_column_to_metric "sys" "t" "wgt" "widgets.weight" prov
    ∷ link_metric_to_entity "widgets.weight" "w1" prov
    ∷ []

abbrev reading : Client
reading = run_all reading_calls init

reading-once : NodupKeys reading.store.edges
unfolding lookup string_eq
reading-once = (calls-IsSound reading_calls (tt, (refl, (refl, (tt, (tt, tt)))))).nodes.edges_once

reading-HasKey :
    (m : Props)
    → LeadsTo reading (label column) (column_key "sys" "t" "wgt") (rel_name measures) m
    → HasKey m
unfolding out_neighbors run_all run margin_mvp.Graph.Client.Edges.link_metric_to_entity upsert_edge
    insert margin_mvp.Graph.Client.Edges.link_column_to_metric margin_mvp.Graph.Client.upsert_entity
    upsert_node lookup update margin_mvp.Graph.Client.upsert_column
    margin_mvp.Graph.Client.upsert_metric string_eq margin_mvp.Graph.Store.Key.node_key_eq node_key
    margin_mvp.Graph.Store.Key.edge_ident_eq margin_mvp.Graph.Client.Aliases.metric_key_of label
    rel_name
reading-HasKey m leads =
    elim ((neighbors_lem reading (label column) (column_key "sys" "t" "wgt") (rel_name measures) m
        reading-once).1
      leads) [
        | inl same ↦ subst HasKey (sym same) ("widgets.weight", refl)
        | inr none_else ↦ absurd none_else
      ]

resolve_column_lem_example :
    ((get_node (label column) (column_key "sys" "t" "wgt") reading.store ≡ none)
      × (resolve_column "sys" "t" "wgt" reading ≡ ok none))
    ⊎ ((r : ResolvedColumn) × (resolve_column "sys" "t" "wgt" reading ≡ ok (some r))
        × Reads reading (column_key "sys" "t" "wgt") r)
resolve_column_lem_example = resolve_column_lem reading "sys" "t" "wgt" reading-once reading-HasKey
