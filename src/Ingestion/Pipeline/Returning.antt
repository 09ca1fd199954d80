-- ===== src/Ingestion/Pipeline/Returning.antt =====
-- ingestion/pipeline.py: the steps of `load_bundle` that return.
use margin_mvp.Base.{
  String, ◌≡◌, refl, ap, sym, ◌∙◌, true, false, inl, inr, Option, none, some, List, [], ◌∷◌,
  contains, string_eq, pair_eq, Bool-cases,
}
use margin_mvp.Base.Lists.{All, All-of, All-map}
use margin_mvp.Base.Dict.{Dict, lookup}
use margin_mvp.Base.Exec.{Exec, pure, gets, ◌>>◌, for_each}
use margin_mvp.Base.Returns.{Returns, bind-Returns, pure-Returns, for_each-Returns}
use margin_mvp.Value.{Props}
use margin_mvp.Graph.Model.{EdgeProvenance}
use margin_mvp.Graph.Client
use margin_mvp.Graph.Client.{Client, is_unlisted}
use margin_mvp.Graph.Client.Edges
use margin_mvp.Ingestion.Ir.{
  ObservedColumn, ObservedDocument, ObservedEntity, ObservedRelation, ParsedBundle,
}
use margin_mvp.Ingestion.Pipeline.{
  ColumnKey, column_key, document_links, load_document, load_column, load_entity, load_relation,
  load_records, pick_subtype, rel_type_or, link_metric, link_target, link_outcome,
}
use margin_mvp.Ingestion.Pipeline.Loading.{Plain}
use margin_mvp.Ingestion.Pipeline.Ready.{
  IsListed, Ready, upsert_column-Returns, upsert_document-Returns, upsert_entity_returns,
  relate_entities-Returns, link_column_to_metric-Returns, link_metric_to_entity-Returns,
  link_metric_to_document-Returns, link_document_to_entity-Returns,
}
use margin_mvp.Resolver.Funnel.{Resolution}

-- the subtype that is picked is allow-listed
pub pick_subtype-listed :
    (allowed labels : List String) (c : Client)
    → c.entity_subtypes ≡ allowed
    → is_unlisted (pick_subtype allowed labels) c ≡ false
unfolding pick_subtype is_unlisted
pick_subtype-listed allowed [] c same = refl
pick_subtype-listed allowed (l ∷ labels) c same = elim (Bool-cases (contains allowed l)) [
  | inl there ↦
      let here : contains c.entity_subtypes l ≡ true = ap (λ xs. contains xs l) same ∙ there in
      rw there (rw here refl)
  | inr absent ↦ rw absent (pick_subtype-listed allowed labels c same)
]

-- a bundle that a client with the edge types `types` takes
abbrev pub Fits : List String → ParsedBundle → Type 0
Fits types b =
    All Plain b.entities
    × All (λ (rel : ObservedRelation). IsListed types (rel_type_or rel.rel_type)) b.relations

module _ (subtypes types : List String) (ms : List Props) where
  abbrev R : Client → Type 0
  R = Ready subtypes types ms

  document_links-Returns :
      (prov : EdgeProvenance) (doc : ObservedDocument) → Returns R (document_links prov doc)
  unfolding document_links
  document_links-Returns prov doc =
      let describe : String → Exec Client (Unit {0}) =
        λ uid. Edges.link_document_to_entity doc.uri uid prov in
      let define : String → Exec Client (Unit {0}) =
        λ key. Edges.link_metric_to_document key doc.uri prov in
      bind-Returns R (for_each doc.describes describe) (λ _. for_each doc.defines define)
        (for_each-Returns R doc.describes describe (
          All-of _ (λ uid. link_document_to_entity-Returns subtypes types ms doc.uri uid prov)
            doc.describes))
        (λ _. for_each-Returns R doc.defines define (
          All-of _ (λ key. link_metric_to_document-Returns subtypes types ms key doc.uri prov)
            doc.defines))

  load_document-Returns :
      (prov : EdgeProvenance) (doc : ObservedDocument) → Returns R (load_document prov doc)
  unfolding load_document
  load_document-Returns prov doc =
      bind-Returns R (Client.upsert_document doc.uri doc.title doc.text doc.as_of)
        (λ _. document_links prov doc)
        (upsert_document-Returns subtypes types ms doc.uri doc.title doc.text doc.as_of)
        (λ _. document_links-Returns prov doc)

  load_column-Returns : (col : ObservedColumn) → Returns R (load_column col)
  unfolding load_column
  load_column-Returns col =
      upsert_column-Returns subtypes types ms col.system col.table col.name col.dtype
        col.sample_values col.has_dictionary

  columns_return : (cols : List ObservedColumn) → Returns R (for_each cols load_column)
  columns_return cols = for_each-Returns R cols load_column (All-of _ load_column-Returns cols)

  load_entity-Returns : (ent : ObservedEntity) → Plain ent → Returns R (load_entity ent)
  unfolding load_entity gets
  load_entity-Returns ent plain c ready =
      let (sound, same, types_same, metrics) = ready in
      let subtype = pick_subtype c.entity_subtypes ent.candidate_labels in
      bind-Returns R (Client.upsert_entity ent.uid subtype (some ent.attributes))
        (λ _. for_each ent.columns load_column)
        (λ d (sound', same', types', metrics').
          let good =
            pick_subtype-listed c.entity_subtypes ent.candidate_labels d (same' ∙ sym same) in
          let (returned, ready') =
            upsert_entity_returns subtypes types ms ent.uid subtype ent.attributes plain d good
              (sound', same', types', metrics') in
          (tt, returned, ready'))
        (λ _. columns_return ent.columns) c ready

  load_relation-Returns :
      (prov : EdgeProvenance) (rel : ObservedRelation)
      → IsListed types (rel_type_or rel.rel_type)
      → Returns R (load_relation prov rel)
  unfolding load_relation
  load_relation-Returns prov rel listed =
      relate_entities-Returns subtypes types ms rel.subject_uid rel.object_uid rel.role prov
        (rel_type_or rel.rel_type) listed

  pub load_records-Returns :
      (prov : EdgeProvenance) (b : ParsedBundle) → Fits types b → Returns R (load_records prov b)
  unfolding load_records
  load_records-Returns prov b (plain, listed) =
      let relations = for_each b.relations (load_relation prov) in
      let entities : Exec Client (Unit {0}) = for_each b.entities load_entity >> relations in
      let columns : Exec Client (Unit {0}) = for_each b.columns load_column >> entities in
      bind-Returns R (for_each b.documents (load_document prov)) (λ _. columns)
        (for_each-Returns R b.documents (load_document prov)
          (All-of _ (load_document-Returns prov) b.documents))
        (λ _.
          bind-Returns R (for_each b.columns load_column) (λ _. entities) (columns_return b.columns)
            (λ _.
              bind-Returns R (for_each b.entities load_entity) (λ _. relations)
                (for_each-Returns R b.entities load_entity
                  (All-map b.entities load_entity-Returns plain))
                (λ _.
                  for_each-Returns R b.relations (load_relation prov)
                    (All-map b.relations (load_relation-Returns prov) listed))))

  link_metric-Returns :
      (prov : EdgeProvenance) (owners : Dict ColumnKey String) (col : ObservedColumn) (key : String)
      → Returns R (link_metric prov owners col key)
  unfolding link_metric
  link_metric-Returns prov owners col key =
      let to_owner : Option String → Exec Client (Unit {0}) =
        λ o. elim o [ none ↦ pure tt | some owner ↦ Edges.link_metric_to_entity key owner prov ] in
      bind-Returns R (Edges.link_column_to_metric col.system col.table col.name key prov)
        (λ _. to_owner (lookup (column_key col) owners))
        (link_column_to_metric-Returns subtypes types ms col.system col.table col.name key prov)
        (λ _. elim (lookup (column_key col) owners) as (λ o. Returns R (to_owner o)) [
          | none ↦ pure-Returns R tt
          | some owner ↦ link_metric_to_entity-Returns subtypes types ms key owner prov
        ])

  pub link_outcome-Returns :
      (prov : EdgeProvenance) (owners : Dict ColumnKey String) (col : ObservedColumn)
      (r : Resolution)
      → Returns R (link_outcome prov owners col r)
  unfolding link_outcome
  link_outcome-Returns prov owners col r =
      let link : Option String → Exec Client (Unit {0}) =
        λ o. elim o [ none ↦ pure tt | some k ↦ link_metric prov owners col k ] in
      elim (link_target r) as (λ o. Returns R (link o)) [
        | none ↦ pure-Returns R tt
        | some k ↦ link_metric-Returns prov owners col k
      ]
