-- ===== src/Graph/Client/MetricNodes.antt =====
-- graph/client.py: the calls that leave the Metric nodes, and so the alias index, as they are.
use margin_mvp.Base.{
  String, ◌≡◌, ◌≢◌, ap, ◌∙◌, Option, List, [], ◌∷◌, arith, string_eq, ◌==◌, Bool, true, false, inl,
  inr, not, ◌&&◌, contains, Bool-cases,
}
use margin_mvp.Base.Dict.{Dict, insert}
use margin_mvp.Base.Loops.{Keeps}
use margin_mvp.Value.{Props}
use margin_mvp.Graph.Model.{
  CoreLabel, label, metric, entity, column, document, rel_name, related_to, EdgeProvenance,
}
use margin_mvp.Graph.Store.{with_label, nodes_by_label, upsert_node}
use margin_mvp.Graph.Store.Key.{NodeKey, node_key, node_key_eq}
use margin_mvp.Graph.Store.Merge.{upsert_node_lem, upsert_edge_lem}
use margin_mvp.Graph.Client.{Client, on_store, is_unlisted}
use margin_mvp.Graph.Client
use margin_mvp.Graph.Client.Edges
use margin_mvp.Graph.Client.Edges.{edge}

abbrev pub MetricsAre : List Props → Client → Type 0
MetricsAre ms c = nodes_by_label (label metric) c.store ≡ ms

with_label-insert :
    (l : String) (k : NodeKey) (v : Props) (nodes : Dict NodeKey Props)
    → k.label ≢ l
    → with_label l (insert k v nodes) ≡ with_label l nodes
unfolding with_label insert
with_label-insert l k v [] other = ground arith
with_label-insert l k v ((j, w) ∷ nodes) other = elim (node_key_eq.dec k j) [
  | yes same ↦
      let label_same : k.label ≡ j.label = ap (λ (i : NodeKey). i.label) same in
      ground (arith, with_label-insert l k v nodes other)
  | no differ ↦ ground (arith, with_label-insert l k v nodes other)
]

pub not_entity : label entity ≢ label metric
not_entity same =
    let f : String → Bool = λ s. s == "Entity" in
    let different : true ≡ false = unfold label string_eq in ap f same in cc

pub not_column : label column ≢ label metric
not_column same =
    let f : String → Bool = λ s. s == "Column" in
    let different : true ≡ false = unfold label string_eq in ap f same in cc

pub not_document : label document ≢ label metric
not_document same =
    let f : String → Bool = λ s. s == "Document" in
    let different : true ≡ false = unfold label string_eq in ap f same in cc

module _ (ms : List Props) where
  pub node_keeps :
      (l : CoreLabel) (key_props : Dict String String) (props : Props) (extra : List String)
      → label l ≢ label metric
      → Keeps (MetricsAre ms) (on_store (upsert_node (label l) key_props props extra))
  unfolding on_store nodes_by_label node_key
  node_keeps l key_props props extra other c h =
      ap (λ r. nodes_by_label (label metric) r.1)
        (upsert_node_lem (label l) key_props props extra c.store)
      ∙ with_label-insert (label metric) (node_key (label l) key_props) _ c.store.nodes other
      ∙ h

  pub edge_keeps :
      (rel : String) (src_label : CoreLabel) (src_key : Dict String String) (dst_label : CoreLabel)
      (dst_key : Dict String String) (prov : EdgeProvenance) (key_props : Dict String String)
      → Keeps (MetricsAre ms) (edge rel src_label src_key dst_label dst_key prov key_props)
  unfolding edge on_store nodes_by_label
  edge_keeps rel src_label src_key dst_label dst_key prov key_props c h =
      ap (λ r. nodes_by_label (label metric) r.1)
        (upsert_edge_lem rel (label src_label) src_key (label dst_label) dst_key key_props _
          c.store)
      ∙ h

  pub upsert_entity_keeps :
      (uid : String) (subtype : Option String) (attrs : Option Props)
      → Keeps (MetricsAre ms) (Client.upsert_entity uid subtype attrs)
  unfolding Client.upsert_entity
  upsert_entity_keeps uid subtype attrs c h = elim (Bool-cases (is_unlisted subtype c)) [
    | inl bad ↦ rw bad h
    | inr good ↦ rw good (node_keeps entity _ _ _ not_entity c h)
  ]

  pub relate_entities_keeps :
      (subject object role : String) (prov : EdgeProvenance) (rel_type : String)
      → Keeps (MetricsAre ms) (Edges.relate_entities subject object role prov rel_type)
  unfolding Edges.relate_entities
  relate_entities_keeps subject object role prov rel_type c h =
      elim (Bool-cases
        (not (rel_type == rel_name related_to) && not (contains c.pack_edge_types rel_type))) [
          | inl bad ↦ rw bad h
          | inr good ↦ rw good (edge_keeps rel_type entity _ entity _ prov _ c h)
        ]
