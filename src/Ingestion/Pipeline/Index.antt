-- ===== src/Ingestion/Pipeline/Index.antt =====
-- ingestion/pipeline.py: the alias index during a load.
use margin_mvp.Base.{◌≡◌, refl, ap, some, List, [], string_eq, []}
use margin_mvp.Base.Lists.{All-of}
use margin_mvp.Base.Loops.{Keeps}
use margin_mvp.Value.{Props}
use margin_mvp.Graph.Model.{
  label, metric, column, document, entity, rel_name, measures, applies_to, defined_in,
  benchmarked_against, computed_from, describes, has_role, party, benchmark,
}
use margin_mvp.Graph.Store.{nodes_by_label}
use margin_mvp.Graph.Client
use margin_mvp.Graph.Client.{Client}
use margin_mvp.Graph.Client.Edges
use margin_mvp.Graph.Client.Aliases.{metric_aliases, metric_terms, index_metrics, collect_terms}
use margin_mvp.Graph.Client.Calls.{Call, run}
use margin_mvp.Graph.Client.Calls
use margin_mvp.Graph.Client.MetricNodes.{
  MetricsAre, node_keeps, edge_keeps, upsert_entity_keeps, relate_entities_keeps, not_column,
  not_document,
}
use margin_mvp.Ingestion.Ir.{ParsedBundle}
use margin_mvp.Ingestion.Source.{Source}
use margin_mvp.Ingestion.Checkpoint.{Checkpointer}
use margin_mvp.Ingestion.Pipeline.{load_bundle, run_ingest}
use margin_mvp.Ingestion.Pipeline.Kept.{Any}
use margin_mvp.Ingestion.Pipeline.Writes.{IsQuiet, load_bundle-Keeps}
use margin_mvp.Ingestion.Pipeline.Runs.{run_ingest-Keeps}
use margin_mvp.Resolver.Funnel.{Config, World}

module _ (ms : List Props) where
  pub quiet_keeps : (call : Call) → IsQuiet call → Keeps (MetricsAre ms) (run call)
  unfolding run Client.upsert_column Client.upsert_document Edges.link_column_to_metric
      Edges.link_metric_to_entity Edges.link_metric_to_document Edges.link_metric_to_benchmark
      Edges.link_metric_computed_from Edges.link_document_to_entity Edges.link_party_to_entity
  quiet_keeps Calls.init_schema q = absurd q
  quiet_keeps (Calls.register_allowlists _ _) q = absurd q
  quiet_keeps (Calls.upsert_entity _ _ _) q = absurd q
  quiet_keeps (Calls.upsert_metric _ _ _) q = absurd q
  quiet_keeps (Calls.upsert_benchmark _ _) q = absurd q
  quiet_keeps (Calls.upsert_party _ _) q = absurd q
  quiet_keeps (Calls.add_metric_alias _ _) q = absurd q
  quiet_keeps (Calls.upsert_column system table name dtype samples dict) q =
      node_keeps ms column _ _ [] not_column
  quiet_keeps (Calls.upsert_document uri title body as_of) q =
      node_keeps ms document _ _ [] not_document
  quiet_keeps (Calls.link_column_to_metric system table name key prov) q =
      edge_keeps ms (rel_name measures) column _ metric _ prov []
  quiet_keeps (Calls.link_metric_to_entity key uid prov) q =
      edge_keeps ms (rel_name applies_to) metric _ entity _ prov []
  quiet_keeps (Calls.link_metric_to_document key uri prov) q =
      edge_keeps ms (rel_name defined_in) metric _ document _ prov []
  quiet_keeps (Calls.link_metric_to_benchmark key bench prov) q =
      edge_keeps ms (rel_name benchmarked_against) metric _ benchmark _ prov []
  quiet_keeps (Calls.link_metric_computed_from key from prov) q =
      edge_keeps ms (rel_name computed_from) metric _ metric _ prov []
  quiet_keeps (Calls.link_document_to_entity uri uid prov) q =
      edge_keeps ms (rel_name describes) document _ entity _ prov []
  quiet_keeps (Calls.link_party_to_entity party_uid uid role prov) q =
      edge_keeps ms (rel_name has_role) party _ entity _ prov _
  quiet_keeps (Calls.relate_entities subject object role prov type) q =
      relate_entities_keeps ms subject object role prov type

  pub load_bundle_keeps :
      (config : Config) (b : ParsedBundle)
      → Keeps (λ w. MetricsAre ms w.client) (load_bundle config b)
  load_bundle_keeps config b =
      load_bundle-Keeps (MetricsAre ms) Any quiet_keeps
        (λ ent any subtype. upsert_entity_keeps ms ent.uid subtype (some ent.attributes)) config b
        (All-of _ (λ ent. tt) b.entities)

-- what the resolver reads of a client
abbrev pub SameIndex : Client → Client → Type 0
SameIndex c d = (metric_aliases c ≡ metric_aliases d) × (metric_terms c ≡ metric_terms d)

pub index_of_MetricsAre :
    (c d : Client) → MetricsAre (nodes_by_label (label metric) d.store) c → SameIndex c d
unfolding metric_aliases metric_terms
index_of_MetricsAre c d h = (ap (λ ms. index_metrics ms []) h, ap (λ ms. collect_terms ms []) h)

-- run_ingest, whether it returns or raises: the alias index and the terms of the metrics, which are all that
-- the resolver reads of the graph, are after it what they were before: no ingested column, document or
-- entity changes how a later column resolves.
pub run_ingest-SameIndex :
    (C : Checkpointer) {S P : Type 0} (source : Source S P) (config : Config) (w : World)
    (ledger : C.Ledger) (s : S)
    → SameIndex (run_ingest C source config w ledger s).1.world.client w.client
run_ingest-SameIndex C source config w ledger s = index_of_MetricsAre _ w.client (
    run_ingest-Keeps C source config (MetricsAre (nodes_by_label (label metric) w.client.store))
      (λ b. Unit) (λ b any. load_bundle_keeps _ config b) (λ artifact b parsed. tt) w ledger s refl)
