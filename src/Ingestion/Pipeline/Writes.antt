-- ===== src/Ingestion/Pipeline/Writes.antt =====
-- ingestion/pipeline.py: the writes of `load_bundle`, for any predicate that each call keeps.
use margin_mvp.Base.{subst, sym, pair_eq, List, [], ◌∷◌, String, Option, none, some, string_eq}
use margin_mvp.Base.Lists.{All, All-map, All-of}
use margin_mvp.Base.Dict.{Dict, lookup}
use margin_mvp.Base.Exec.{Exec, pure, gets, ◌>>=◌, ◌>>◌, for_each}
use margin_mvp.Base.Loops.{Keeps, bind-Keeps, for_each-Keeps}
use margin_mvp.Graph.Model.{EdgeProvenance}
use margin_mvp.Graph.Client
use margin_mvp.Graph.Client.{Client}
use margin_mvp.Graph.Client.Edges
use margin_mvp.Graph.Client.Calls.{Call, run, IsPlain}
use margin_mvp.Graph.Client.Calls
use margin_mvp.Ingestion.Ir.{
  ObservedColumn, ObservedDocument, ObservedEntity, ObservedRelation, ParsedBundle, iter_columns,
}
use margin_mvp.Ingestion.Pipeline.{
  document_links, ColumnKey, column_key, owner_of, edge_provenance, load_document, load_column,
  load_entity, load_relation, load_records, pick_subtype, rel_type_or, link_metric, link_target,
  link_outcome, resolve_columns, load_bundle,
}
use margin_mvp.Resolver.Tiers.{client-resolve}
use margin_mvp.Resolver.Funnel.{Config, World, Resolution, resolve, on_client}

-- a call with no free-form attributes that changes neither the allow-lists nor an alias
abbrev pub IsQuiet : Call → Type 0
IsQuiet Calls.init_schema = ⊥
IsQuiet (Calls.register_allowlists _ _) = ⊥
IsQuiet (Calls.upsert_entity _ _ _) = ⊥
IsQuiet (Calls.upsert_metric _ _ _) = ⊥
IsQuiet (Calls.upsert_benchmark _ _) = ⊥
IsQuiet (Calls.upsert_party _ _) = ⊥
IsQuiet (Calls.add_metric_alias _ _) = ⊥
IsQuiet _ = Unit

module _ (P : Client → Type 0) (Fits : ObservedEntity → Type 0)
    (quiet : (call : Call) → IsQuiet call → Keeps P (run call))
    (entity : (ent : ObservedEntity)
      → Fits ent
      → (subtype : Option String)
      → Keeps P (Client.upsert_entity ent.uid subtype (some ent.attributes))) where
  -- the links of a document, after its node
  pub document_links-Keeps :
      (prov : EdgeProvenance) (doc : ObservedDocument) → Keeps P (document_links prov doc)
  unfolding document_links run
  document_links-Keeps prov doc =
      let describe : String → Exec Client (Unit {0}) =
        λ uid. Edges.link_document_to_entity doc.uri uid prov in
      let define : String → Exec Client (Unit {0}) =
        λ key. Edges.link_metric_to_document key doc.uri prov in
      bind-Keeps P (for_each doc.describes describe) (λ _. for_each doc.defines define)
        (for_each-Keeps P doc.describes describe (
          All-of _ (λ uid. quiet (Calls.link_document_to_entity doc.uri uid prov) tt)
            doc.describes))
        (λ _.
          for_each-Keeps P doc.defines define (
            All-of _ (λ key. quiet (Calls.link_metric_to_document key doc.uri prov) tt)
              doc.defines))

  pub load_document-Keeps :
      (prov : EdgeProvenance) (doc : ObservedDocument) → Keeps P (load_document prov doc)
  unfolding load_document run
  load_document-Keeps prov doc =
      bind-Keeps P (Client.upsert_document doc.uri doc.title doc.text doc.as_of)
        (λ _. document_links prov doc)
        (quiet (Calls.upsert_document doc.uri doc.title doc.text doc.as_of) tt)
        (λ _. document_links-Keeps prov doc)

  pub load_column-Keeps : (col : ObservedColumn) → Keeps P (load_column col)
  unfolding load_column run
  load_column-Keeps col =
      quiet
        (Calls.upsert_column col.system col.table col.name col.dtype col.sample_values
          col.has_dictionary)
        tt

  pub columns-Keeps : (cols : List ObservedColumn) → Keeps P (for_each cols load_column)
  columns-Keeps cols = for_each-Keeps P cols load_column (All-of _ load_column-Keeps cols)

  pub load_entity-Keeps : (ent : ObservedEntity) → Fits ent → Keeps P (load_entity ent)
  unfolding load_entity run gets
  load_entity-Keeps ent plain c h =
      let subtype = pick_subtype c.entity_subtypes ent.candidate_labels in
      bind-Keeps P (Client.upsert_entity ent.uid subtype (some ent.attributes))
        (λ _. for_each ent.columns load_column) (entity ent plain subtype)
        (λ _. columns-Keeps ent.columns) c h

  pub load_relation-Keeps :
      (prov : EdgeProvenance) (rel : ObservedRelation) → Keeps P (load_relation prov rel)
  unfolding load_relation run
  load_relation-Keeps prov rel =
      quiet
        (Calls.relate_entities rel.subject_uid rel.object_uid rel.role prov
          (rel_type_or rel.rel_type))
        tt

  load_records-Keeps :
      (prov : EdgeProvenance) (b : ParsedBundle)
      → All Fits b.entities
      → Keeps P (load_records prov b)
  unfolding load_records
  load_records-Keeps prov b plain =
      let relations = for_each b.relations (load_relation prov) in
      let entities : Exec Client (Unit {0}) = for_each b.entities load_entity >> relations in
      let columns : Exec Client (Unit {0}) = for_each b.columns load_column >> entities in
      bind-Keeps P (for_each b.documents (load_document prov)) (λ _. columns)
        (for_each-Keeps P b.documents (load_document prov)
          (All-of _ (load_document-Keeps prov) b.documents))
        (λ _.
          bind-Keeps P (for_each b.columns load_column) (λ _. entities) (columns-Keeps b.columns)
            (λ _.
              bind-Keeps P (for_each b.entities load_entity) (λ _. relations)
                (for_each-Keeps P b.entities load_entity
                  (All-map b.entities load_entity-Keeps plain))
                (λ _.
                  for_each-Keeps P b.relations (load_relation prov)
                    (All-of _ (load_relation-Keeps prov) b.relations))))

  link_metric-Keeps :
      (prov : EdgeProvenance) (owners : Dict ColumnKey String) (col : ObservedColumn) (key : String)
      → Keeps P (link_metric prov owners col key)
  unfolding link_metric run
  link_metric-Keeps prov owners col key =
      let to_owner : Option String → Exec Client (Unit {0}) =
        λ o. elim o [ none ↦ pure tt | some owner ↦ Edges.link_metric_to_entity key owner prov ] in
      bind-Keeps P (Edges.link_column_to_metric col.system col.table col.name key prov)
        (λ _. to_owner (lookup (column_key col) owners))
        (quiet (Calls.link_column_to_metric col.system col.table col.name key prov) tt)
        (λ _. elim (lookup (column_key col) owners) as (λ o. Keeps P (to_owner o)) [
          | none ↦ λ c h. h
          | some owner ↦ quiet (Calls.link_metric_to_entity key owner prov) tt
        ])

  link_outcome-Keeps :
      (prov : EdgeProvenance) (owners : Dict ColumnKey String) (col : ObservedColumn)
      (r : Resolution)
      → Keeps P (link_outcome prov owners col r)
  unfolding link_outcome pure
  link_outcome-Keeps prov owners col r =
      let link : Option String → Exec Client (Unit {0}) =
        λ o. elim o [ none ↦ pure tt | some k ↦ link_metric prov owners col k ] in
      elim (link_target r) as (λ o. Keeps P (link o)) [
        | none ↦ λ c h. h
        | some k ↦ link_metric-Keeps prov owners col k
      ]

  abbrev pub Within : World → Type 0
  Within w = P w.client

  pub on_client-Keeps : {A : Type 0} (m : Exec Client A) → Keeps P m → Keeps Within (on_client m)
  unfolding on_client
  on_client-Keeps m k w h = k w.client h

  resolve-Keeps : (config : Config) (col : ObservedColumn) → Keeps Within (resolve config col)
  resolve-Keeps config col w h = subst P (sym (client-resolve config col w)) h

  pub resolve_columns-Keeps :
      (config : Config) (prov : EdgeProvenance) (owners : Dict ColumnKey String)
      (cols : List ObservedColumn)
      → Keeps Within (resolve_columns config prov owners cols)
  unfolding resolve_columns pure
  resolve_columns-Keeps config prov owners [] = λ w h. h
  resolve_columns-Keeps config prov owners (col ∷ cols) =
      let others : Resolution → Exec World (List Resolution) =
        λ outcome. resolve_columns config prov owners cols >>= λ rest. pure (outcome ∷ rest) in
      let link : Resolution → Exec World (Unit {0}) =
        λ outcome. on_client (link_outcome prov owners col outcome) in
      bind-Keeps Within (resolve config col) (λ outcome. link outcome >> others outcome)
        (resolve-Keeps config col)
        (λ outcome.
          bind-Keeps Within (link outcome) (λ _. others outcome)
            (on_client-Keeps (link_outcome prov owners col outcome)
              (link_outcome-Keeps prov owners col outcome))
            (λ _.
              bind-Keeps Within (resolve_columns config prov owners cols)
                (λ rest. pure (outcome ∷ rest)) (resolve_columns-Keeps config prov owners cols)
                (λ _ w h. h)))

  pub load_bundle-Keeps :
      (config : Config) (b : ParsedBundle)
      → All Fits b.entities
      → Keeps Within (load_bundle config b)
  unfolding load_bundle
  load_bundle-Keeps config b plain =
      bind-Keeps Within (on_client (load_records (edge_provenance b.provenance) b))
        (λ _.
          resolve_columns config (edge_provenance b.provenance) (owner_of b.entities [])
            (iter_columns b))
        (on_client-Keeps (load_records (edge_provenance b.provenance) b)
          (load_records-Keeps (edge_provenance b.provenance) b plain))
        (λ _. resolve_columns-Keeps config _ _ (iter_columns b))
