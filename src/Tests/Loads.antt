-- ===== src/Tests/Loads.antt =====
-- Instances of the theorems on loads that return and on loads that are made twice.
use margin_mvp.Base.{
  String, ◌≡◌, refl, ◌↔◌, none, some, List, [], ◌∷◌, ◌+◌, string_eq, pair_eq, list_eq,
}
use margin_mvp.Base.Lists.{All, length}
use margin_mvp.Base.Dict.{Dict, lookup}
use margin_mvp.Base.Exec.{Result, ok}
use margin_mvp.Graph.Store.Key.{node_key}
use margin_mvp.Graph.Store.Identity.{SameItems, node_key_iff}
use margin_mvp.Graph.Client.{Client, init}
use margin_mvp.Graph.Client.Calls.{Call, run_all, upsert_entity, relate_entities}
use margin_mvp.Graph.Client.Twice.{run_all_twice}
use margin_mvp.Graph.Client.Safety.{init-IsSound}
use margin_mvp.Packs.Loader.{Pack, load_pack}
use margin_mvp.Packs.Loading.{load_pack-IsSound}
use margin_mvp.Graph.Client.Steps.{IsSound}
use margin_mvp.Graph.Model.{label, metric}
use margin_mvp.Graph.Store.{nodes_by_label}
use margin_mvp.Packs.Twice.{load_pack_twice}
use margin_mvp.Ingestion.Checkpoint.{in_memory, in_memory-IsLawful}
use margin_mvp.Ingestion.Pipeline.{IngestReport, load_bundle, run_ingest}
use margin_mvp.Ingestion.Pipeline.Index.{SameIndex, run_ingest-SameIndex}
use margin_mvp.Ingestion.Pipeline.LoadReturns.{Suggests, IsReadable}
use margin_mvp.Ingestion.Pipeline.Liveness.{Serves, run_ingest_returns}
use margin_mvp.Ingestion.Pipeline.Turns.{Seen}
use margin_mvp.Ingestion.Pipeline.Twice.{load_bundle_twice}
use margin_mvp.Ingestion.Source.{WorkItem}
use margin_mvp.Resolver.Funnel.{Resolution, World}
use margin_mvp.Resolver.Suggest.{string_similarity}
use margin_mvp.Value.{text_value}
use margin_mvp.Tests.Data.{
  item, loaded, world, red, prov, widgets, config, new_world, source, bundle,
}

abbrev column_a : Dict String String
column_a = ("system", "s") ∷ ("table", "t") ∷ ("name", "n") ∷ []

abbrev column_b : Dict String String
column_b = ("name", "n") ∷ ("system", "s") ∷ ("table", "t") ∷ []

node_key_iff_example :
    (node_key "Column" column_a ≡ node_key "Column" column_b)
    ↔ (((◌≡◌) {A = String} "Column" "Column") × SameItems column_a column_b)
node_key_iff_example = node_key_iff "Column" "Column" column_a column_b

-- two writes of one entity, one that is refused, and an edge
abbrev script : List Call
script =
    upsert_entity "w1" none (some red)
    ∷ upsert_entity "w2" (some "Ghost") none
    ∷ relate_entities "w1" "w2" "part" prov "RELATED_TO"
    ∷ upsert_entity "w1" none (some (("size", text_value "2") ∷ []))
    ∷ []

run_all_twice_example : run_all script (run_all script init) ≡ run_all script init
unfolding lookup string_eq
run_all_twice_example =
    run_all_twice script init (refl, (refl, (tt, (refl, tt)))) (tt, (tt, (tt, (tt, tt))))

load_pack_twice_example :
    let first : Result Pack × Client = load_pack widgets init in
    (first.0 ≡ ok widgets) × (load_pack widgets first.1 ≡ (ok widgets, first.1))
unfolding lookup string_eq margin_mvp.Packs.Loader.validate margin_mvp.Base.Text.split_once
load_pack_twice_example = load_pack_twice widgets (refl, tt) tt init refl init-IsSound

run_ingest-SameIndex_example :
    SameIndex (run_ingest in_memory source config new_world [] tt).1.world.client new_world.client
run_ingest-SameIndex_example = run_ingest-SameIndex in_memory source config new_world [] tt

pub config-Suggests : Suggests config
unfolding string_similarity
config-Suggests column terms = (_, refl)

-- the pack's one metric, read as an index
pub loaded-IsReadable : IsReadable (nodes_by_label (label metric) loaded.store)
unfolding margin_mvp.Graph.Client.Aliases.index_metrics nodes_by_label load_pack string_eq
    margin_mvp.Base.Text.split_once margin_mvp.Graph.Client.upsert_metric
    margin_mvp.Graph.Store.upsert_node lookup margin_mvp.Base.Dict.update
    margin_mvp.Base.Dict.insert node_key label margin_mvp.Graph.Client.Aliases.index_metric
    margin_mvp.Graph.Client.Aliases.collect_terms margin_mvp.Graph.Client.Aliases.terms_of
loaded-IsReadable = ((_, refl), (_, refl))

init-IsReadable : IsReadable (nodes_by_label (label metric) init.store)
unfolding margin_mvp.Graph.Client.Aliases.index_metrics nodes_by_label
    margin_mvp.Graph.Client.Aliases.collect_terms
init-IsReadable = ((_, refl), (_, refl))

pub loaded-IsSound : IsSound loaded
unfolding lookup string_eq load_pack
loaded-IsSound = load_pack-IsSound widgets init (refl, tt) tt init-IsSound

source-Serves : (item : WorkItem) → Serves in_memory source config (λ s. Unit) [] item
source-Serves item s order = (_, bundle, refl, tt, refl, (tt, tt))

run_ingest_returns_example :
    (report : IngestReport) × ((run_ingest in_memory source config new_world [] tt).0 ≡ ok report)
    × (report.items_ingested + report.items_skipped ≡ length source.discover)
    × All
        (Seen in_memory source config (run_ingest in_memory source config new_world [] tt).1.ledger)
        source.discover
run_ingest_returns_example =
    run_ingest_returns in_memory source config in_memory-IsLawful new_world [] tt (λ s. Unit)
      config-Suggests init-IsSound init-IsReadable tt
      (source-Serves (item "a"), (source-Serves (item "b"), tt))

load_bundle_twice_example :
    let first : Result (List Resolution) × World = load_bundle config bundle world in
    (rs : List Resolution) × (first.0 ≡ ok rs)
    × ((load_bundle config bundle first.1).0 ≡ ok rs)
    × ((load_bundle config bundle first.1).1.client ≡ first.1.client)
load_bundle_twice_example =
    load_bundle_twice config bundle world config-Suggests loaded-IsSound loaded-IsReadable (tt, tt)
