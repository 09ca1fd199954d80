-- ===== src/Ingestion/Pipeline/Contents.antt =====
-- ingestion/pipeline.py: the nodes that `load_bundle` leaves.
use margin_mvp.Base.{
  String, ◌≡◌, refl, ap, sym, ◌∙◌, subst, inl, inr, some, Option, List, [], ◌∷◌, string_eq,
  Bool-cases,
}
use margin_mvp.Base.Lists.{All, All-map}
use margin_mvp.Base.Dict.{Dict}
use margin_mvp.Base.Exec.{write_validation_error, Exec, ok, err, ◌>>◌, for_each, gets}
use margin_mvp.Base.Loops.{Keeps, for_each-All, bind-Keeps, bind-returns, bind-All, next-All}
use margin_mvp.Graph.Model.{EdgeProvenance, label, document, column, entity}
use margin_mvp.Graph.Client
use margin_mvp.Graph.Client.{Client, subtype_name, column_key, is_unlisted}
use margin_mvp.Graph.Client.Presence.{Present, upsert_node-Present}
use margin_mvp.Ingestion.Ir.{
  ObservedColumn, ObservedDocument, ObservedEntity, ParsedBundle, iter_columns,
}
use margin_mvp.Ingestion.Pipeline.{
  document_links, load_document, load_column, load_entity, load_relation, load_records,
  pick_subtype, load_bundle, resolve_columns, edge_provenance, owner_of,
}
use margin_mvp.Ingestion.Pipeline.Writes.{document_links-Keeps}
use margin_mvp.Resolver.Funnel.{Config, World, Resolution, on_client}
use margin_mvp.Ingestion.Pipeline.Kept.{
  Any, quietly, entities, column_keeps, columns_keep, document_keeps, entity_keeps, entities_keep,
  relations_keep, resolve_keeps,
}

abbrev pub HasDocument : ObservedDocument → Client → Type 0
HasDocument doc = Present (label document) (("uri", doc.uri) ∷ [])

abbrev pub HasColumn : ObservedColumn → Client → Type 0
HasColumn col = Present (label column) (column_key col.system col.table col.name)

-- the entity and its columns
abbrev pub HasEntity : ObservedEntity → Client → Type 0
HasEntity ent c =
    Present (label entity) (("uid", ent.uid) ∷ []) c × All (λ col. HasColumn col c) ent.columns

-- a step that keeps every node keeps an entity with its columns
HasEntity-Keeps :
    {A : Type 0} (m : Exec Client A)
    → ((l : String) (key : Dict String String) → Keeps (Present l key) m)
    → (ent : ObservedEntity) → Keeps (HasEntity ent) m
HasEntity-Keeps m keeps ent c (there, cols) =
    (keeps _ _ c there, All-map ent.columns (λ col h. keeps _ _ c h) cols)

load_column-HasColumn : (col : ObservedColumn) (c : Client) → HasColumn col (load_column col c).1
unfolding load_column Client.upsert_column
load_column-HasColumn col c =
    upsert_node-Present (label column) (column_key col.system col.table col.name) _ [] c

load_document-HasDocument :
    (prov : EdgeProvenance) (doc : ObservedDocument) (c : Client)
    → (load_document prov doc c).0 ≡ ok tt
    → HasDocument doc (load_document prov doc c).1
unfolding load_document Client.upsert_document
load_document-HasDocument prov doc c h =
    let upsert : Exec Client (Unit {0}) =
      Client.upsert_document doc.uri doc.title doc.text doc.as_of in
    let (_, _, step) = bind-returns upsert (λ _. document_links prov doc) c h in
    subst (λ p. HasDocument doc p.1) (sym step)
      (document_links-Keeps (Present (label document) (("uri", doc.uri) ∷ [])) Any (quietly _ _)
        (entities _ _) prov doc (upsert c).1
        (upsert_node-Present (label document) (("uri", doc.uri) ∷ []) _ [] c))

upsert_entity-returns :
    (uid : String) (subtype : Option String) (attrs : _) (c : Client)
    → (Client.upsert_entity uid subtype attrs c).0 ≡ ok tt
    → Present (label entity) (("uid", uid) ∷ []) (Client.upsert_entity uid subtype attrs c).1
unfolding Client.upsert_entity
upsert_entity-returns uid subtype attrs c h = elim (Bool-cases (is_unlisted subtype c)) [
  | inl bad ↦
      let raised : (Client.upsert_entity uid subtype attrs c).0
          ≡ err (write_validation_error (subtype_name subtype)) =
        rw bad refl in
      cc
  | inr good ↦ rw good (upsert_node-Present (label entity) (("uid", uid) ∷ []) _ _ c)
]

load_entity-HasEntity :
    (ent : ObservedEntity) (c : Client)
    → (load_entity ent c).0 ≡ ok tt
    → HasEntity ent (load_entity ent c).1
unfolding load_entity gets
load_entity-HasEntity ent c h =
    let upsert : Exec Client (Unit {0}) =
      Client.upsert_entity ent.uid (pick_subtype c.entity_subtypes ent.candidate_labels)
        (some ent.attributes) in
    let (_, done, step) = bind-returns upsert (λ _. for_each ent.columns load_column) c h in
    let there = upsert_entity-returns ent.uid _ (some ent.attributes) c done in
    subst (λ p. HasEntity ent p.1) (sym step)
      (
        columns_keep _ _ ent.columns (upsert c).1 there,
        for_each-All HasColumn load_column (λ x y. column_keeps _ _ x)
            (λ x s _. load_column-HasColumn x s) ent.columns (upsert c).1
            (ap (λ p. p.0) (sym step) ∙ h),
      )

-- the nodes of a bundle's records
abbrev pub HasRecords : ParsedBundle → Client → Type 0
HasRecords b c =
    All (λ d. HasDocument d c) b.documents
    × All (λ col. HasColumn col c) b.columns
    × All (λ ent. HasEntity ent c) b.entities

module _ (prov : EdgeProvenance) (b : ParsedBundle) where
  abbrev relations : Exec Client (Unit {0})
  relations = for_each b.relations (load_relation prov)

  abbrev entities_on : Exec Client (Unit {0})
  entities_on = for_each b.entities load_entity >> relations

  abbrev columns_on : Exec Client (Unit {0})
  columns_on = for_each b.columns load_column >> entities_on

  entities_on-Keeps : (l : String) (key : Dict String String) → Keeps (Present l key) entities_on
  entities_on-Keeps l key =
      bind-Keeps (Present l key) (for_each b.entities load_entity) (λ _. relations)
        (entities_keep l key b.entities) (λ _. relations_keep l key prov b.relations)

  columns_on-Keeps : (l : String) (key : Dict String String) → Keeps (Present l key) columns_on
  columns_on-Keeps l key =
      bind-Keeps (Present l key) (for_each b.columns load_column) (λ _. entities_on)
        (columns_keep l key b.columns) (λ _. entities_on-Keeps l key)

  entities_on-All :
      (c : Client)
      → (entities_on c).0 ≡ ok tt
      → All (λ ent. HasEntity ent (entities_on c).1) b.entities
  entities_on-All c h =
      bind-All (for_each b.entities load_entity) (λ _. relations) c HasEntity b.entities
        (λ _ done.
          for_each-All HasEntity load_entity
            (λ x y. HasEntity-Keeps (load_entity x) (λ l key. entity_keeps l key x) y)
            load_entity-HasEntity b.entities c done)
        (λ ent _. HasEntity-Keeps relations (λ l key. relations_keep l key prov b.relations) ent) h

  columns_on-All :
      (c : Client)
      → (columns_on c).0 ≡ ok tt
      → All (λ col. HasColumn col (columns_on c).1) b.columns
  columns_on-All c h =
      bind-All (for_each b.columns load_column) (λ _. entities_on) c HasColumn b.columns
        (λ _ done.
          for_each-All HasColumn load_column (λ x y. column_keeps _ _ x)
            (λ x s _. load_column-HasColumn x s) b.columns c done)
        (λ col _. entities_on-Keeps _ _) h

  load_records-HasRecords :
      (c : Client) → (load_records prov b c).0 ≡ ok tt → HasRecords b (load_records prov b c).1
  unfolding load_records
  load_records-HasRecords c h =
      let documents : Exec Client (Unit {0}) = for_each b.documents (load_document prov) in
      (
        bind-All documents (λ _. columns_on) c HasDocument b.documents
            (λ _ done.
              for_each-All HasDocument (load_document prov) (λ x y. document_keeps _ _ prov x)
                (load_document-HasDocument prov) b.documents c done)
            (λ doc _. columns_on-Keeps _ _) h,
        next-All documents (λ _. columns_on) c HasColumn b.columns (λ _ t. columns_on-All t) h,
        next-All documents (λ _. columns_on) c HasEntity b.entities
            (λ _ t.
              next-All (for_each b.columns load_column) (λ _. entities_on) t HasEntity b.entities
                (λ _ u. entities_on-All u))
            h,
      )

-- what keeps every node keeps a bundle's nodes
HasRecords-kept :
    (b : ParsedBundle) (c d : Client)
    → ((l : String) (key : Dict String String) → Present l key c → Present l key d)
    → HasRecords b c
    → HasRecords b d
HasRecords-kept b c d keeps (docs, cols, ents) = (
  All-map b.documents (λ doc h. keeps _ _ h) docs,
  All-map b.columns (λ col h. keeps _ _ h) cols,
  All-map b.entities (λ ent (h, own). (keeps _ _ h, All-map ent.columns (λ col k. keeps _ _ k) own))
      ents,
)

-- load_bundle, when it returns: each document of the bundle, each of its columns, and each of its
-- entities with the columns that it owns is a node of the graph.
pub load_bundle-HasRecords :
    (config : Config) (b : ParsedBundle) (w : World) {resolutions : List Resolution}
    → (load_bundle config b w).0 ≡ ok resolutions
    → HasRecords b (load_bundle config b w).1.client
unfolding load_bundle on_client
load_bundle-HasRecords config b w h =
    let prov = edge_provenance b.provenance in
    let records : Exec World (Unit {0}) = on_client (load_records prov b) in
    let resolving : Exec World (List Resolution) =
      resolve_columns config prov (owner_of b.entities []) (iter_columns b) in
    let (_, done, step) = bind-returns records (λ _. resolving) w h in
    subst (λ p. HasRecords b p.1.client) (sym step)
      (HasRecords-kept b (records w).1.client (resolving (records w).1).1.client
        (λ l key there.
          resolve_keeps l key config prov (owner_of b.entities []) (iter_columns b) (records w).1
            there)
        (load_records-HasRecords prov b w.client done))
