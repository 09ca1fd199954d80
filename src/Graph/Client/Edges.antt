-- ===== src/Graph/Client/Edges.antt =====
-- The eight spine edges of `GraphClient`, each with its provenance.
use margin_mvp.Base.{String, not, ◌&&◌, [], ◌∷◌, ◌==◌, contains, string_eq, if◌then◌else◌}
use margin_mvp.Base.Dict.{Dict}
use margin_mvp.Base.Exec.{Exec, err, write_validation_error}
use margin_mvp.Value.{Props, text_value}
use margin_mvp.Graph.Model.{
  CoreLabel, label, entity, metric, column, document, benchmark, party, rel_name, measures,
  applies_to, defined_in, benchmarked_against, computed_from, describes, has_role, related_to,
  EdgeProvenance,
}
use margin_mvp.Graph.Store.{upsert_edge}
use margin_mvp.Graph.Client.{Client, on_store, column_key}

-- the properties that `_edge` sets
unfoldable pub provenance_props : EdgeProvenance → Props
provenance_props prov =
    ("source_ref", text_value prov.source_ref)
    ∷ ("as_of", text_value prov.as_of)
    ∷ ("created_by", text_value prov.created_by)
    ∷ []

-- `_edge`, given the relationship's name
unfoldable pub edge :
    String
    → CoreLabel
    → Dict String String
    → CoreLabel
    → Dict String String
    → EdgeProvenance
    → Dict String String
    → Exec Client (Unit {0})
unfolding on_store provenance_props
edge rel src_label src_key dst_label dst_key prov key_props = on_store (
    upsert_edge rel (label src_label) src_key (label dst_label) dst_key key_props
      (provenance_props prov))

unfoldable pub link_column_to_metric :
    String → String → String → String → EdgeProvenance → Exec Client (Unit {0})
unfolding edge column_key
link_column_to_metric system table name metric_key prov =
    edge (rel_name measures) column (column_key system table name) metric
      (("metric_key", metric_key) ∷ []) prov []

unfoldable pub link_metric_to_entity : String → String → EdgeProvenance → Exec Client (Unit {0})
unfolding edge
link_metric_to_entity metric_key entity_uid prov =
    edge (rel_name applies_to) metric (("metric_key", metric_key) ∷ []) entity
      (("uid", entity_uid) ∷ []) prov []

unfoldable pub link_metric_to_document : String → String → EdgeProvenance → Exec Client (Unit {0})
unfolding edge
link_metric_to_document metric_key uri prov =
    edge (rel_name defined_in) metric (("metric_key", metric_key) ∷ []) document (("uri", uri) ∷ [])
      prov []

unfoldable pub link_metric_to_benchmark : String → String → EdgeProvenance → Exec Client (Unit {0})
unfolding edge
link_metric_to_benchmark metric_key benchmark_key prov =
    edge (rel_name benchmarked_against) metric (("metric_key", metric_key) ∷ []) benchmark
      (("benchmark_key", benchmark_key) ∷ []) prov []

unfoldable pub link_metric_computed_from : String → String → EdgeProvenance → Exec Client (Unit {0})
unfolding edge
link_metric_computed_from metric_key source_metric_key prov =
    edge (rel_name computed_from) metric (("metric_key", metric_key) ∷ []) metric
      (("metric_key", source_metric_key) ∷ []) prov []

unfoldable pub link_document_to_entity : String → String → EdgeProvenance → Exec Client (Unit {0})
unfolding edge
link_document_to_entity uri entity_uid prov =
    edge (rel_name describes) document (("uri", uri) ∷ []) entity (("uid", entity_uid) ∷ []) prov []

unfoldable pub link_party_to_entity :
    String → String → String → EdgeProvenance → Exec Client (Unit {0})
unfolding edge
link_party_to_entity party_uid entity_uid role prov =
    edge (rel_name has_role) party (("uid", party_uid) ∷ []) entity (("uid", entity_uid) ∷ []) prov
      (("role", role) ∷ [])

unfoldable pub relate_entities :
    String → String → String → EdgeProvenance → String → Exec Client (Unit {0})
unfolding edge
relate_entities subject_uid object_uid role prov rel_type c =
    if not (rel_type == rel_name related_to) && not (contains c.pack_edge_types rel_type)
    then (err (write_validation_error rel_type), c)
    else edge rel_type entity (("uid", subject_uid) ∷ []) entity (("uid", object_uid) ∷ []) prov
        (("role", role) ∷ []) c
