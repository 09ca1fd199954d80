-- ===== src/Ingestion/Pipeline/Records.antt =====
-- ingestion/pipeline.py: the calls that load the records of a bundle, and those that link a column.
use margin_mvp.Base.{
  String, ◌≡◌, refl, sym, subst, Option, none, some, List, [], ◌∷◌, ◌++◌, string_eq, pair_eq,
}
use margin_mvp.Base.Lists.{All-of, All-map}
use margin_mvp.Base.Dict.{Dict, lookup}
use margin_mvp.Base.Exec.{Exec, ok, pure, gets, ◌>>◌, for_each}
use margin_mvp.Value.{Props}
use margin_mvp.Graph.Model.{EdgeProvenance}
use margin_mvp.Graph.Client
use margin_mvp.Graph.Client.{Client}
use margin_mvp.Graph.Client.Edges
use margin_mvp.Graph.Client.Calls
use margin_mvp.Graph.Client.Calls.{Call, run, run_all}
use margin_mvp.Ingestion.Ir.{
  ObservedColumn, ObservedDocument, ObservedEntity, ObservedRelation, ParsedBundle,
}
use margin_mvp.Ingestion.Pipeline.{
  ColumnKey, column_key, document_links, load_document, load_column, load_entity, load_relation,
  load_records, pick_subtype, rel_type_or, link_metric, link_target, link_outcome,
}
use margin_mvp.Ingestion.Pipeline.Loading.{Plain}
use margin_mvp.Ingestion.Pipeline.Ready.{
  IsListed, Ready, upsert_column-Returns, upsert_document-Returns, upsert_entity_returns,
  relate_entities-Returns, link_column_to_metric-Returns, link_metric_to_entity-Returns,
  link_metric_to_document-Returns, link_document_to_entity-Returns,
}
use margin_mvp.Ingestion.Pipeline.Returning.{Fits, pick_subtype-listed}
use margin_mvp.Ingestion.Pipeline.Recorded.{Does, bind-Does, for_each-Does, call-Does, calls_of}
use margin_mvp.Resolver.Funnel.{Resolution}

abbrev pub document_calls : EdgeProvenance → ObservedDocument → List Call
document_calls prov doc =
    Calls.upsert_document doc.uri doc.title doc.text doc.as_of
      ∷ calls_of (λ uid. Calls.link_document_to_entity doc.uri uid prov ∷ []) doc.describes
    ++ calls_of (λ key. Calls.link_metric_to_document key doc.uri prov ∷ []) doc.defines

abbrev pub column_call : ObservedColumn → List Call
column_call col =
    Calls.upsert_column col.system col.table col.name col.dtype col.sample_values col.has_dictionary
    ∷ []

abbrev pub entity_calls : List String → ObservedEntity → List Call
entity_calls allowed ent =
    Calls.upsert_entity ent.uid (pick_subtype allowed ent.candidate_labels) (some ent.attributes)
    ∷ calls_of column_call ent.columns

abbrev pub relation_call : EdgeProvenance → ObservedRelation → List Call
relation_call prov rel =
    Calls.relate_entities rel.subject_uid rel.object_uid rel.role prov (rel_type_or rel.rel_type)
    ∷ []

abbrev pub record_calls : List String → EdgeProvenance → ParsedBundle → List Call
record_calls allowed prov b =
    calls_of (document_calls prov) b.documents
    ++ (calls_of column_call b.columns
        ++ (calls_of (entity_calls allowed) b.entities
            ++ calls_of (relation_call prov) b.relations))

abbrev pub owner_calls : EdgeProvenance → String → Option String → List Call
owner_calls prov key none = []
owner_calls prov key (some owner) = Calls.link_metric_to_entity key owner prov ∷ []

abbrev pub link_calls :
    EdgeProvenance → Dict ColumnKey String → ObservedColumn → Option String → List Call
link_calls prov owners col none = []
link_calls prov owners col (some key) =
    Calls.link_column_to_metric col.system col.table col.name key prov
    ∷ owner_calls prov key (lookup (column_key col) owners)

module _ (subtypes types : List String) (ms : List Props) where
  abbrev DoesHere : {A : Type 0} → List Call → Exec Client A → Type 0
  DoesHere calls m = Does subtypes types ms (λ c. c) calls m

  document-Does :
      (prov : EdgeProvenance) (doc : ObservedDocument)
      → DoesHere (document_calls prov doc) (load_document prov doc)
  unfolding load_document document_links run
  document-Does prov doc =
      let describe : String → Exec Client (Unit {0}) =
        λ uid. Edges.link_document_to_entity doc.uri uid prov in
      let define : String → Exec Client (Unit {0}) =
        λ key. Edges.link_metric_to_document key doc.uri prov in
      bind-Does subtypes types ms (λ c. c) _ _
        (Client.upsert_document doc.uri doc.title doc.text doc.as_of) (λ _. document_links prov doc)
        (call-Does subtypes types ms _
          (upsert_document-Returns subtypes types ms doc.uri doc.title doc.text doc.as_of))
        (λ _.
          bind-Does subtypes types ms (λ c. c) _ _ (for_each doc.describes describe)
            (λ _. for_each doc.defines define)
            (for_each-Does subtypes types ms (λ c. c) _ describe doc.describes
              (All-of _
                (λ uid.
                  call-Does subtypes types ms (Calls.link_document_to_entity doc.uri uid prov)
                    (link_document_to_entity-Returns subtypes types ms doc.uri uid prov))
                doc.describes))
            (λ _.
              for_each-Does subtypes types ms (λ c. c) _ define doc.defines
                (All-of _
                  (λ key.
                    call-Does subtypes types ms (Calls.link_metric_to_document key doc.uri prov)
                      (link_metric_to_document-Returns subtypes types ms key doc.uri prov))
                  doc.defines)))

  column-Does : (col : ObservedColumn) → DoesHere (column_call col) (load_column col)
  unfolding load_column run
  column-Does col = call-Does subtypes types ms _ (
      upsert_column-Returns subtypes types ms col.system col.table col.name col.dtype
        col.sample_values col.has_dictionary)

  columns-Does :
      (cols : List ObservedColumn)
      → DoesHere (calls_of column_call cols) (for_each cols load_column)
  columns-Does cols =
      for_each-Does subtypes types ms (λ c. c) column_call load_column cols
        (All-of _ column-Does cols)

  -- an entity, with the subtypes that are allow-listed
  abbrev with_subtypes : ObservedEntity → List String → Exec Client (Unit {0})
  with_subtypes ent allowed =
      Client.upsert_entity ent.uid (pick_subtype allowed ent.candidate_labels) (some ent.attributes)
      >> for_each ent.columns load_column

  with_subtypes-Does :
      (ent : ObservedEntity)
      → Plain ent
      → DoesHere (entity_calls subtypes ent) (with_subtypes ent subtypes)
  unfolding run
  with_subtypes-Does ent plain =
      let subtype = pick_subtype subtypes ent.candidate_labels in
      bind-Does subtypes types ms (λ c. c) _ _
        (Client.upsert_entity ent.uid subtype (some ent.attributes))
        (λ _. for_each ent.columns load_column)
        (call-Does subtypes types ms (Calls.upsert_entity ent.uid subtype (some ent.attributes))
          (λ d (sound, same, lists, metrics).
            let (returned, ready) =
              upsert_entity_returns subtypes types ms ent.uid subtype ent.attributes plain d
                (pick_subtype-listed subtypes ent.candidate_labels d same)
                (sound, same, lists, metrics) in
            (tt, returned, ready)))
        (λ _. columns-Does ent.columns)

  entity-Does :
      (ent : ObservedEntity) → Plain ent → DoesHere (entity_calls subtypes ent) (load_entity ent)
  unfolding load_entity gets
  entity-Does ent plain c h =
      let (sound, same, lists, metrics) = h in
      subst
        (λ allowed.
          (a : Unit {0}) × ((with_subtypes ent allowed c).0 ≡ ok a)
          × ((with_subtypes ent allowed c).1 ≡ run_all (entity_calls subtypes ent) c)
          × Ready subtypes types ms (with_subtypes ent allowed c).1)
        (sym same) (with_subtypes-Does ent plain c h)

  relation-Does :
      (prov : EdgeProvenance) (rel : ObservedRelation)
      → IsListed types (rel_type_or rel.rel_type)
      → DoesHere (relation_call prov rel) (load_relation prov rel)
  unfolding load_relation run
  relation-Does prov rel listed = call-Does subtypes types ms _ (
      relate_entities-Returns subtypes types ms rel.subject_uid rel.object_uid rel.role prov
        (rel_type_or rel.rel_type) listed)

  pub records-Does :
      (prov : EdgeProvenance) (b : ParsedBundle)
      → Fits types b
      → DoesHere (record_calls subtypes prov b) (load_records prov b)
  unfolding load_records
  records-Does prov b (plain, listed) =
      let relations = for_each b.relations (load_relation prov) in
      let entities : Exec Client (Unit {0}) = for_each b.entities load_entity >> relations in
      let columns : Exec Client (Unit {0}) = for_each b.columns load_column >> entities in
      bind-Does subtypes types ms (λ c. c) _ _ (for_each b.documents (load_document prov))
        (λ _. columns)
        (for_each-Does subtypes types ms (λ c. c) (document_calls prov) (load_document prov)
          b.documents (All-of _ (document-Does prov) b.documents))
        (λ _.
          bind-Does subtypes types ms (λ c. c) _ _ (for_each b.columns load_column) (λ _. entities)
            (columns-Does b.columns)
            (λ _.
              bind-Does subtypes types ms (λ c. c) _ _ (for_each b.entities load_entity)
                (λ _. relations)
                (for_each-Does subtypes types ms (λ c. c) (entity_calls subtypes) load_entity
                  b.entities (All-map b.entities entity-Does plain))
                (λ _.
                  for_each-Does subtypes types ms (λ c. c) (relation_call prov) (load_relation prov)
                    b.relations (All-map b.relations (relation-Does prov) listed))))

  nothing-Does : DoesHere [] (pure {S = Client} tt)
  unfolding run_all pure
  nothing-Does c h = (tt, refl, refl, h)

  link_metric-Does :
      (prov : EdgeProvenance) (owners : Dict ColumnKey String) (col : ObservedColumn) (key : String)
      → DoesHere (link_calls prov owners col (some key)) (link_metric prov owners col key)
  unfolding link_metric run
  link_metric-Does prov owners col key =
      let to_owner : Option String → Exec Client (Unit {0}) =
        λ o. elim o [ none ↦ pure tt | some owner ↦ Edges.link_metric_to_entity key owner prov ] in
      bind-Does subtypes types ms (λ c. c)
        (Calls.link_column_to_metric col.system col.table col.name key prov ∷ [])
        (owner_calls prov key (lookup (column_key col) owners))
        (Edges.link_column_to_metric col.system col.table col.name key prov)
        (λ _. to_owner (lookup (column_key col) owners))
        (call-Does subtypes types ms _
          (link_column_to_metric-Returns subtypes types ms col.system col.table col.name key prov))
        (λ _.
          elim (lookup (column_key col) owners)
            as (λ o. DoesHere (owner_calls prov key o) (to_owner o)) [
              | none ↦ nothing-Does
              | some owner ↦
                  call-Does subtypes types ms (Calls.link_metric_to_entity key owner prov)
                    (link_metric_to_entity-Returns subtypes types ms key owner prov)
            ])

  pub link_outcome-Does :
      (prov : EdgeProvenance) (owners : Dict ColumnKey String) (col : ObservedColumn)
      (r : Resolution)
      → DoesHere (link_calls prov owners col (link_target r)) (link_outcome prov owners col r)
  unfolding link_outcome
  link_outcome-Does prov owners col r =
      let link : Option String → Exec Client (Unit {0}) =
        λ o. elim o [ none ↦ pure tt | some k ↦ link_metric prov owners col k ] in
      elim (link_target r) as (λ o. DoesHere (link_calls prov owners col o) (link o)) [
        | none ↦ nothing-Does
        | some k ↦ link_metric-Does prov owners col k
      ]
