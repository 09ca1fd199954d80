-- ===== src/Ingestion/Pipeline.antt =====
-- ingestion/pipeline.py: `load_bundle` and `run_ingest`.
-- The client that the pipeline writes to is the resolver's, as in every use of the two.
pub mod Turns
pub mod Resume
pub mod Writes
pub mod Loading
pub mod Kept
pub mod Contents
pub mod Runs
pub mod Safety
pub mod Index
pub mod Ready
pub mod Returning
pub mod LoadReturns
pub mod Liveness
pub mod Recorded
pub mod Records
pub mod Repeatable
pub mod Outcomes
pub mod Twice
use margin_mvp.Base.{
  ℕ, ◌+◌, String, Bool, true, false, Option, none, some, List, [], ◌∷◌, ◌++◌, ◌==◌, contains,
  string_eq, pair_eq, if◌then◌else◌,
}
use margin_mvp.Base.Dict.{Dict, lookup, insert}
use margin_mvp.Base.Exec.{Exec, Result, ok, err, pure, lift, gets, ◌>>=◌, ◌>>◌, for_each}
use margin_mvp.Graph.Model.{EdgeProvenance, rel_name, related_to}
use margin_mvp.Graph.Client.{Client, upsert_entity, upsert_column, upsert_document}
use margin_mvp.Graph.Client.Edges.{
  link_document_to_entity, link_metric_to_document, link_column_to_metric, link_metric_to_entity,
  relate_entities,
}
use margin_mvp.Ingestion.Ir.{
  ObservedColumn, ObservedDocument, ObservedEntity, ObservedRelation, Provenance, ParsedBundle,
  iter_columns,
}
use margin_mvp.Ingestion.Source.{WorkItem, Source}
use margin_mvp.Ingestion.Checkpoint.{Checkpointer}
use margin_mvp.Resolver.Funnel.{
  Tier, auto_linked, suggested, escalated, documented, Resolution, Config, World, on_client,
  resolve,
}

abbrev pub ColumnKey : Type 0
ColumnKey = String × (String × String)

-- `_column_key`
abbrev pub column_key : ObservedColumn → ColumnKey
column_key c = (c.system, (c.table, c.name))

unfoldable pub edge_provenance : Provenance → EdgeProvenance
edge_provenance p = record {
  source_ref = p.source_ref;
  as_of = p.fetched_at;
  created_by = p.connector_version;
}

-- `_pick_subtype`: the first candidate that is allow-listed
unfoldable pub pick_subtype : List String → List String → Option String
pick_subtype allowed [] = none
pick_subtype allowed (l ∷ labels) =
    let later = pick_subtype allowed labels in if contains allowed l then some l else later

-- the two loops over the links of a document
unfoldable pub document_links : EdgeProvenance → ObservedDocument → Exec Client (Unit {0})
unfolding for_each ◌>>=◌
document_links prov doc = do
  for_each doc.describes (λ uid. link_document_to_entity doc.uri uid prov)
  for_each doc.defines (λ key. link_metric_to_document key doc.uri prov)

unfoldable pub load_document : EdgeProvenance → ObservedDocument → Exec Client (Unit {0})
unfolding document_links ◌>>=◌
load_document prov doc = do
  upsert_document doc.uri doc.title doc.text doc.as_of
  document_links prov doc

unfoldable pub load_column : ObservedColumn → Exec Client (Unit {0})
load_column col =
    upsert_column col.system col.table col.name col.dtype col.sample_values col.has_dictionary

unfoldable pub load_entity : ObservedEntity → Exec Client (Unit {0})
unfolding load_column pick_subtype for_each ◌>>=◌
load_entity ent = do
  allowed ← gets (λ c. c.entity_subtypes)
  upsert_entity ent.uid (pick_subtype allowed ent.candidate_labels) (some ent.attributes)
  for_each ent.columns load_column

-- `rel.rel_type or RelType.RELATED_TO.value`
unfoldable pub rel_type_or : Option String → String
rel_type_or none = rel_name related_to
rel_type_or (some t) = if t == "" then rel_name related_to else t

unfoldable pub load_relation : EdgeProvenance → ObservedRelation → Exec Client (Unit {0})
unfolding rel_type_or
load_relation prov rel =
    relate_entities rel.subject_uid rel.object_uid rel.role prov (rel_type_or rel.rel_type)

-- the columns of one entity, in the table of owners
unfoldable pub own : String → List ObservedColumn → Dict ColumnKey String → Dict ColumnKey String
own uid [] owners = owners
own uid (c ∷ cols) owners = own uid cols (insert (column_key c) uid owners)

-- `owner_of`, as the loop over the entities leaves it
unfoldable pub owner_of : List ObservedEntity → Dict ColumnKey String → Dict ColumnKey String
unfolding own
owner_of [] owners = owners
owner_of (ent ∷ entities) owners = owner_of entities (own ent.uid ent.columns owners)

unfoldable pub load_records : EdgeProvenance → ParsedBundle → Exec Client (Unit {0})
unfolding load_document load_column load_entity load_relation for_each ◌>>=◌
load_records prov b = do
  for_each b.documents (load_document prov)
  for_each b.columns load_column
  for_each b.entities load_entity
  for_each b.relations (load_relation prov)

-- the links of a column that resolved at tier 1, to its metric and from there to its owner
unfoldable pub link_metric :
    EdgeProvenance → Dict ColumnKey String → ObservedColumn → String → Exec Client (Unit {0})
unfolding ◌>>=◌
link_metric prov owners col metric_key = do
  link_column_to_metric col.system col.table col.name metric_key prov
  elim (lookup (column_key col) owners) [
    | none ↦ pure tt
    | some owner ↦ link_metric_to_entity metric_key owner prov
  ]

-- `outcome.tier is Tier.AUTO_LINKED and outcome.metric_key`
unfoldable pub link_target : Resolution → Option String
link_target r = elim r.tier [
  | auto_linked ↦ elim r.metric_key [ none ↦ none | some k ↦ if k == "" then none else some k ]
  | _ ↦ none
]

unfoldable pub link_outcome :
    EdgeProvenance → Dict ColumnKey String → ObservedColumn → Resolution → Exec Client (Unit {0})
unfolding link_metric link_target
link_outcome prov owners col r = elim (link_target r) [
  | none ↦ pure tt
  | some k ↦ link_metric prov owners col k
]

module _ (config : Config) where
  unfoldable pub resolve_columns :
      EdgeProvenance → Dict ColumnKey String → List ObservedColumn → Exec World (List Resolution)
  unfolding resolve link_outcome on_client ◌>>=◌
  resolve_columns prov owners [] = pure []
  resolve_columns prov owners (col ∷ cols) = do
    outcome ← resolve config col
    on_client (link_outcome prov owners col outcome)
    rest ← resolve_columns prov owners cols
    pure (outcome ∷ rest)

  unfoldable pub load_bundle : ParsedBundle → Exec World (List Resolution)
  unfolding load_records resolve_columns edge_provenance owner_of iter_columns on_client ◌>>=◌
  load_bundle b = do
    on_client (load_records (edge_provenance b.provenance) b)
    resolve_columns (edge_provenance b.provenance) (owner_of b.entities []) (iter_columns b)

pub record IngestReport : Type 0 where
  pub items_ingested : ℕ
  pub items_skipped : ℕ
  pub resolutions : List Resolution
  pub bundles : List ParsedBundle

abbrev pub no_report : IngestReport
no_report = record { items_ingested = 0; items_skipped = 0; resolutions = []; bundles = [] }

-- `r.tier is tier`
unfoldable pub is_tier : Tier → Tier → Bool
is_tier auto_linked auto_linked = true
is_tier suggested suggested = true
is_tier escalated escalated = true
is_tier documented documented = true
is_tier _ _ = false

unfoldable pub with_tier : Tier → List Resolution → List Resolution
unfolding is_tier
with_tier tier [] = []
with_tier tier (r ∷ rs) =
    let rest = with_tier tier rs in if is_tier r.tier tier then r ∷ rest else rest

-- `IngestReport.by_tier`
unfoldable pub by_tier : Tier → IngestReport → List Resolution
unfolding with_tier
by_tier tier report = with_tier tier report.resolutions

-- All that a run works on. The report is a local of `run_ingest`: where the run raises, the caller
-- has the other three.
pub record Run (C : Checkpointer) (S : Type 0) : Type 0 where
  pub world : World
  pub ledger : C.Ledger
  pub source : S
  pub report : IngestReport

module _ (C : Checkpointer) {S P : Type 0} (source : Source S P) (config : Config) where
  unfoldable pub on_source {ℓ} : {A : Type ℓ} → Exec S A → Exec (Run C S) A
  on_source m r = let (x, s) = m r.source in (x, record r { source = s })

  unfoldable pub on_world {ℓ} : {A : Type ℓ} → Exec World A → Exec (Run C S) A
  on_world m r = let (x, w) = m r.world in (x, record r { world = w })

  unfoldable pub note_skip : Exec (Run C S) (Unit {0})
  note_skip r =
      (ok tt, record r { report = record r.report { items_skipped = r.report.items_skipped + 1 } })

  unfoldable pub note_bundle : ParsedBundle → Exec (Run C S) (Unit {0})
  note_bundle b r =
      (ok tt, record r { report = record r.report { bundles = r.report.bundles ++ b ∷ [] } })

  -- `report.resolutions.extend(...)`, `mark_done` and the count
  unfoldable pub finish_item : WorkItem → List Resolution → Exec (Run C S) (Unit {0})
  finish_item item resolutions r = (
    ok tt,
    record r {
      ledger = C.mark_done r.ledger item.source_ref item.item_id;
      report = record r.report {
        items_ingested = r.report.items_ingested + 1;
        resolutions = r.report.resolutions ++ resolutions;
      };
    },
  )

  unfoldable pub ingest : WorkItem → Exec (Run C S) (Unit {0})
  unfolding on_source on_world note_bundle finish_item ◌>>=◌
  ingest item = do
    artifact ← on_source (source.fetch item)
    bundle ← lift (source.parse artifact)
    note_bundle bundle
    resolutions ← on_world (load_bundle config bundle)
    finish_item item resolutions

  -- one turn of the loop
  unfoldable pub visit : WorkItem → Exec (Run C S) (Unit {0})
  unfolding note_skip
  visit item r =
      if C.has_seen r.ledger item.source_ref item.item_id then note_skip r else ingest item r

  unfoldable pub visit_all : List WorkItem → Exec (Run C S) (Unit {0})
  unfolding for_each
  visit_all items = for_each items visit

  unfoldable pub run_ingest : World → C.Ledger → S → Result IngestReport × Run C S
  unfolding visit_all
  run_ingest w ledger s =
      let (r, run) =
        visit_all source.discover
          (record { world = w; ledger = ledger; source = s; report = no_report }) in
      (elim r [ ok _ ↦ ok run.report | err e ↦ err e ], run)
