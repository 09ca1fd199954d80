-- ===== src/Ingestion/Pipeline/Ready.antt =====
-- graph/client.py: the calls of `load_bundle` that return, on a sound client.
use margin_mvp.Base.{
  String, ◌≡◌, ◌≢◌, Bool, false, not, ◌&&◌, Option, none, some, List, [], ◌==◌, contains, string_eq,
}
use margin_mvp.Base.Dict.{Dict, lookup}
use margin_mvp.Base.Returns.{Returns}
use margin_mvp.Base.Exec.{ok}
use margin_mvp.Value.{Props}
use margin_mvp.Graph.Model.{
  CoreLabel, label, column, document, entity, RelType, rel_name, related_to, EdgeProvenance,
}
use margin_mvp.Graph.Store.{upsert_node}
use margin_mvp.Graph.Client
use margin_mvp.Graph.Client.{Client, on_store, is_unlisted, column_props, document_props}
use margin_mvp.Graph.Client.Edges
use margin_mvp.Graph.Client.Edges.{edge}
use margin_mvp.Graph.Client.MetricNodes.{
  MetricsAre, node_keeps, edge_keeps, upsert_entity_keeps, relate_entities_keeps, not_column,
  not_document,
}
use margin_mvp.Graph.Client.Steps.{IsSound, node_step, edge_step, lookup-clean_of_absent}
use margin_mvp.Graph.Client.Writes.{
  upsert_entity-Done, relate_entities-Done, column_plain, document_plain, spine,
}
use margin_mvp.Graph.Model.{measures, metric, applies_to, defined_in, describes}
use margin_mvp.Base.{subst, sym}

-- a relationship type that `relate_entities` takes
abbrev pub IsListed : List String → String → Type 0
IsListed types rel_type =
    (not (rel_type == rel_name related_to) && not (contains types rel_type)) ≡ false

-- a sound client with these edge types in its allow-list, these subtypes and these Metric nodes
abbrev pub Ready : List String → List String → List Props → Client → Type 0
Ready subtypes types ms c =
    IsSound c × (c.entity_subtypes ≡ subtypes) × (c.pack_edge_types ≡ types) × MetricsAre ms c

module _ (subtypes types : List String) (ms : List Props) where
  abbrev R : Client → Type 0
  R = Ready subtypes types ms

  node-Returns :
      (l : CoreLabel) (key_props : Dict String String) (props : Props)
      → label l ≢ label metric
      → lookup "_labels" props ≡ none
      → Returns R (on_store (upsert_node (label l) key_props props []))
  unfolding on_store
  node-Returns l key_props props other plain c (sound, s, t, h) =
      let (returned, sound') = node_step l key_props props [] c tt plain sound in
      (tt, returned, (sound', s, t, node_keeps ms l key_props props [] other c h))

  edge-Returns :
      (t : RelType) (src_label : CoreLabel) (src_key : Dict String String) (dst_label : CoreLabel)
      (dst_key : Dict String String) (prov : EdgeProvenance) (key_props : Dict String String)
      → Returns R (edge (rel_name t) src_label src_key dst_label dst_key prov key_props)
  unfolding edge on_store
  edge-Returns t src_label src_key dst_label dst_key prov key_props c (sound, s, ts, h) =
      let (returned, sound') =
        edge_step (rel_name t) src_label src_key dst_label dst_key prov key_props c (spine c t)
          sound in
      (
        tt,
        returned,
        (
          sound',
          s,
          ts,
          edge_keeps ms (rel_name t) src_label src_key dst_label dst_key prov key_props c h,
        ),
      )

  pub upsert_column-Returns :
      (system table name : String) (dtype : Option String) (samples : List String) (dict : Bool)
      → Returns R (Client.upsert_column system table name dtype samples dict)
  unfolding Client.upsert_column
  upsert_column-Returns system table name dtype samples dict = node-Returns column _ _ not_column (
      lookup-clean_of_absent "_labels" (column_props dtype samples dict)
        (column_plain dtype samples dict))

  pub upsert_document-Returns :
      (uri : String) (title : Option String) (body : String) (as_of : Option String)
      → Returns R (Client.upsert_document uri title body as_of)
  unfolding Client.upsert_document
  upsert_document-Returns uri title body as_of = node-Returns document _ _ not_document (
      lookup-clean_of_absent "_labels" (document_props title body as_of)
        (document_plain title body as_of))

  pub link_column_to_metric-Returns :
      (system table name key : String) (prov : EdgeProvenance)
      → Returns R (Edges.link_column_to_metric system table name key prov)
  unfolding Edges.link_column_to_metric
  link_column_to_metric-Returns system table name key prov =
      edge-Returns measures column _ metric _ prov []

  pub link_metric_to_entity-Returns :
      (key uid : String) (prov : EdgeProvenance)
      → Returns R (Edges.link_metric_to_entity key uid prov)
  unfolding Edges.link_metric_to_entity
  link_metric_to_entity-Returns key uid prov = edge-Returns applies_to metric _ entity _ prov []

  pub link_metric_to_document-Returns :
      (key uri : String) (prov : EdgeProvenance)
      → Returns R (Edges.link_metric_to_document key uri prov)
  unfolding Edges.link_metric_to_document
  link_metric_to_document-Returns key uri prov = edge-Returns defined_in metric _ document _ prov []

  pub link_document_to_entity-Returns :
      (uri uid : String) (prov : EdgeProvenance)
      → Returns R (Edges.link_document_to_entity uri uid prov)
  unfolding Edges.link_document_to_entity
  link_document_to_entity-Returns uri uid prov = edge-Returns describes document _ entity _ prov []

  entity_lists :
      (uid : String) (subtype : Option String) (attrs : Option Props) (c : Client)
      → is_unlisted subtype c ≡ false
      → (c.entity_subtypes ≡ subtypes) × (c.pack_edge_types ≡ types)
      → let d : Client = (Client.upsert_entity uid subtype attrs c).1 in
        (d.entity_subtypes ≡ subtypes) × (d.pack_edge_types ≡ types)
  unfolding Client.upsert_entity on_store
  entity_lists uid subtype attrs c good h = rw good h

  pub upsert_entity_returns :
      (uid : String) (subtype : Option String) (attrs : Props)
      → lookup "_labels" attrs ≡ none
      → (c : Client) → is_unlisted subtype c ≡ false
      → R c
      → ((Client.upsert_entity uid subtype (some attrs) c).0 ≡ ok tt)
        × R (Client.upsert_entity uid subtype (some attrs) c).1
  upsert_entity_returns uid subtype attrs plain c good (sound, s, t, h) =
      let (returned, sound') = upsert_entity-Done uid subtype (some attrs) c plain good sound in
      let (s', t') = entity_lists uid subtype (some attrs) c good (s, t) in
      (returned, (sound', s', t', upsert_entity_keeps ms uid subtype (some attrs) c h))

  relation_lists :
      (subject object role : String) (prov : EdgeProvenance) (rel_type : String) (c : Client)
      → IsListed c.pack_edge_types rel_type
      → (c.entity_subtypes ≡ subtypes) × (c.pack_edge_types ≡ types)
      → let d : Client = (Edges.relate_entities subject object role prov rel_type c).1 in
        (d.entity_subtypes ≡ subtypes) × (d.pack_edge_types ≡ types)
  unfolding Edges.relate_entities edge on_store
  relation_lists subject object role prov rel_type c good h = rw good h

  pub relate_entities-Returns :
      (subject object role : String) (prov : EdgeProvenance) (rel_type : String)
      → IsListed types rel_type
      → Returns R (Edges.relate_entities subject object role prov rel_type)
  relate_entities-Returns subject object role prov rel_type listed c (sound, s, t, h) =
      let good : IsListed c.pack_edge_types rel_type =
        subst (λ ts. IsListed ts rel_type) (sym t) listed in
      let (returned, sound') =
        relate_entities-Done subject object role prov rel_type c good sound in
      let (s', t') = relation_lists subject object role prov rel_type c good (s, t) in
      (
        tt,
        returned,
        (sound', s', t', relate_entities_keeps ms subject object role prov rel_type c h),
      )
