-- ===== src/Ingestion/Pipeline/Kept.antt =====
-- ingestion/pipeline.py: the nodes that a step of `load_bundle` finds.
use margin_mvp.Base.{String, some, Option, List, string_eq}
use margin_mvp.Base.Lists.{All-of}
use margin_mvp.Base.Dict.{Dict}
use margin_mvp.Base.Exec.{for_each}
use margin_mvp.Base.Loops.{Keeps, for_each-Keeps}
use margin_mvp.Graph.Model.{EdgeProvenance}
use margin_mvp.Graph.Client
use margin_mvp.Graph.Client.{Client, subtype_name, column_key, is_unlisted}
use margin_mvp.Graph.Client.Calls.{Call, run}
use margin_mvp.Graph.Client.Presence.{Present, run-Present, upsert_entity-Present}
use margin_mvp.Ingestion.Ir.{ObservedColumn, ObservedDocument, ObservedEntity}
use margin_mvp.Ingestion.Pipeline.{
  load_document, load_column, load_entity, load_relation, resolve_columns,
}
use margin_mvp.Ingestion.Pipeline.Writes.{
  IsQuiet, load_document-Keeps, load_column-Keeps, load_entity-Keeps, load_relation-Keeps,
  columns-Keeps, Within, resolve_columns-Keeps,
}
use margin_mvp.Resolver.Funnel.{Config}

abbrev pub Any : ObservedEntity → Type 0
Any ent = Unit

-- nothing that is loaded takes a node away
module _ (l : String) (key : Dict String String) where
  pub quietly : (call : Call) → IsQuiet call → Keeps (Present l key) (run call)
  quietly call q = run-Present l key call

  pub entities :
      (ent : ObservedEntity)
      → Any ent
      → (subtype : Option String)
      → Keeps (Present l key) (Client.upsert_entity ent.uid subtype (some ent.attributes))
  entities ent any subtype = upsert_entity-Present l key ent.uid subtype (some ent.attributes)

  pub column_keeps : (col : ObservedColumn) → Keeps (Present l key) (load_column col)
  column_keeps = load_column-Keeps (Present l key) Any quietly entities

  pub columns_keep :
      (cols : List ObservedColumn) → Keeps (Present l key) (for_each cols load_column)
  columns_keep = columns-Keeps (Present l key) Any quietly entities

  pub document_keeps :
      (prov : EdgeProvenance) (doc : ObservedDocument)
      → Keeps (Present l key) (load_document prov doc)
  document_keeps = load_document-Keeps (Present l key) Any quietly entities

  pub entity_keeps : (ent : ObservedEntity) → Keeps (Present l key) (load_entity ent)
  entity_keeps ent = load_entity-Keeps (Present l key) Any quietly entities ent tt

  pub entities_keep :
      (ents : List ObservedEntity) → Keeps (Present l key) (for_each ents load_entity)
  entities_keep ents = for_each-Keeps (Present l key) ents load_entity (All-of _ entity_keeps ents)

  pub relations_keep :
      (prov : EdgeProvenance) (rels : List _)
      → Keeps (Present l key) (for_each rels (load_relation prov))
  relations_keep prov rels =
      for_each-Keeps (Present l key) rels (load_relation prov)
        (All-of _ (load_relation-Keeps (Present l key) Any quietly entities prov) rels)

  pub resolve_keeps :
      (config : Config) (prov : EdgeProvenance) (owners : _) (cols : List ObservedColumn)
      → Keeps
          (Within (Present l key) Any quietly entities)
          (resolve_columns config prov owners cols)
  resolve_keeps = resolve_columns-Keeps (Present l key) Any quietly entities
