-- ===== src/Ingestion/Synthetic.antt =====
-- ingestion/connectors/synthetic.py: the reference connector over responses from memory.
-- A row's cells are scalars. The limiter that `fetch` passes through and the clock that stamps an
-- artifact are the parameters that the connector is constructed with.
pub mod Stub
pub mod Items
pub mod Serving
pub mod Pace
pub mod Running
use margin_mvp.Base.{
  ℕ, String, ◌<>◌, false, Option, none, some, List, [], ◌∷◌, ◌++◌, map, ◌==◌, string_eq, pair_eq,
  if◌then◌else◌,
}
use margin_mvp.Base.Dict.{Dict, lookup, keys}
use margin_mvp.Base.Exec.{
  Exec, Result, ok, err, key_error, type_error, value_error, lift, gets, pure, ◌>>=◌, ◌>>◌,
}
use margin_mvp.Base.Result
use margin_mvp.Base.Lists.{take}
use margin_mvp.Base.Text.{split_once}
use margin_mvp.Value.{Atom, null, bool, int, text, text_value, to_text}
use margin_mvp.Ingestion.Ir.{ir_schema_version, Provenance, ObservedColumn, ParsedBundle}
use margin_mvp.Ingestion.Source.{WorkItem, RawArtifact, Source}
use margin_mvp.Ingestion.RateLimit.Limiter.{RateLimiter}
use margin_mvp.Ingestion.Router.{ParserRouter, register, parse}
use margin_mvp.Ingestion.Synthetic.Stub.{
  Row, DocumentRow, Payload, rows, document, RestStub, list_tables, list_documents, get_rows,
  get_document,
}

unfoldable pub table_item : String → (String × String) → WorkItem
table_item source_ref (system, table) = record {
  item_id = "rows:" <> system <> "." <> table;
  source_ref = source_ref;
  artifact_type = "rows";
  metadata = ("system", system) ∷ ("table", table) ∷ [];
}

unfoldable pub document_item : String → String → WorkItem
document_item source_ref uri = record {
  item_id = "prose:" <> uri;
  source_ref = source_ref;
  artifact_type = "prose";
  metadata = ("uri", uri) ∷ [];
}

unfoldable pub discover : RestStub → String → List WorkItem
unfolding list_tables list_documents table_item document_item
discover api source_ref =
    map (table_item source_ref) (list_tables api)
    ++ map (document_item source_ref) (list_documents api)

-- `item.metadata[k]`
unfoldable pub meta : String → WorkItem → Result String
meta k item = elim (lookup k item.metadata) [ none ↦ err (key_error k) | some v ↦ ok v ]

unfoldable pub read_payload : RestStub → WorkItem → Result Payload
unfolding meta
read_payload api item =
    if item.artifact_type == "rows"
    then (Result.bind (meta "system" item) λ system.
        Result.bind (meta "table" item)
          λ table. Result.bind (get_rows api system table) λ found. ok (rows found))
    else (Result.bind (meta "uri" item)
        λ uri. Result.bind (get_document api uri) λ found. ok (document found))

-- `type(v).__name__`
unfoldable pub type_name : Atom → String
type_name null = "NoneType"
type_name (bool _) = "bool"
type_name (int _) = "int"
type_name (text _) = "str"

-- `_infer_dtype`: the type of the first cell that is not null
unfoldable pub infer_dtype : List Row → String → Option String
unfolding type_name
infer_dtype [] name = none
infer_dtype (r ∷ rs) name =
    let later = infer_dtype rs name in
    elim (lookup name r) [ none ↦ later | some null ↦ later | some v ↦ some (type_name v) ]

unfoldable pub samples : List Row → String → List String
unfolding to_text
samples [] name = []
samples (r ∷ rs) name =
    let later = samples rs name in
    elim (lookup name r) [ none ↦ later | some null ↦ later | some v ↦ to_text v ∷ later ]

-- `list(rows[0].keys()) if rows else []`
unfoldable pub column_names : List Row → List String
unfolding keys
column_names [] = []
column_names (r ∷ rs) = keys r

-- `_, ref = item_id.split(":", 1)` raises a `ValueError` where there is nothing to split at
unfoldable pub behind : ℕ → String → Result (String × String)
unfolding split_once
behind sep s =
    let (before, after) = split_once sep s in
    elim after [ none ↦ err (value_error s) | some rest ↦ ok (before, rest) ]

unfoldable pub observed_column : String → String → List Row → String → ObservedColumn
unfolding infer_dtype samples
observed_column system table found name = record {
  system = system;
  table = table;
  name = name;
  dtype = infer_dtype found name;
  sample_values = samples (take 3 found) name;
  has_dictionary = false;
  schema_version = ir_schema_version;
}

abbrev pub connector_version : String
connector_version = "synthetic@0.1.0"

unfoldable pub provenance : String → String → Provenance
provenance source_ref fetched_at = record {
  source_ref = source_ref;
  fetched_at = fetched_at;
  connector_version = connector_version;
}

unfoldable pub rows_bundle : String → String → String → String → List Row → ParsedBundle
unfolding observed_column column_names provenance
rows_bundle source_ref fetched_at system table found = record {
  provenance = provenance source_ref fetched_at;
  columns = [];
  documents = [];
  entities =
      record {
        uid = system <> "." <> table;
        candidate_labels = "Widget" ∷ [];
        attributes = ("system", text_value system) ∷ ("table", text_value table) ∷ [];
        columns = map (observed_column system table found) (column_names found);
        schema_version = ir_schema_version;
      }
      ∷ [];
  relations = [];
}

-- `_parse_rows`; a payload of the other kind is no list of rows
unfoldable pub parse_rows : String → RawArtifact Payload → Result ParsedBundle
unfolding behind rows_bundle
parse_rows source_ref artifact = elim artifact.payload [
  | document _ ↦ err type_error
  | rows found ↦ Result.bind (behind b':' artifact.item_id) λ (_, ref).
      Result.bind (behind b'.' ref)
        λ (system, table). ok (rows_bundle source_ref artifact.fetched_at system table found)
]

-- `str(doc.get("text", ""))`
unfoldable pub text_or_empty : Option Atom → String
unfolding to_text
text_or_empty none = ""
text_or_empty (some v) = to_text v

unfoldable pub prose_bundle : String → String → String → DocumentRow → ParsedBundle
unfolding text_or_empty provenance
prose_bundle source_ref fetched_at uri doc = record {
  provenance = provenance source_ref fetched_at;
  columns = [];
  documents =
      record {
        uri = uri;
        title = doc.title;
        text = text_or_empty doc.text;
        as_of = doc.as_of;
        describes = [];
        defines = [];
        schema_version = ir_schema_version;
      }
      ∷ [];
  entities = [];
  relations = [];
}

unfoldable pub parse_prose : String → RawArtifact Payload → Result ParsedBundle
unfolding behind prose_bundle
parse_prose source_ref artifact = elim artifact.payload [
  | rows _ ↦ err type_error
  | document doc ↦
      Result.bind (behind b':' artifact.item_id)
        λ (_, uri). ok (prose_bundle source_ref artifact.fetched_at uri doc)
]

-- the router that `__init__` fills
unfoldable pub router : String → ParserRouter Payload
unfolding register ◌>>=◌
router source_ref =
    ((do register "rows" (parse_rows source_ref); register "prose" (parse_prose source_ref)) []).1

module _ {L : Type 0} (api : RestStub) (limiter : RateLimiter L) (clock : L → String)
    (source_ref : String) where
  unfoldable pub fetch : WorkItem → Exec L (RawArtifact Payload)
  unfolding read_payload ◌>>=◌
  fetch item = do
    limiter.acquire limiter.one
    payload ← lift (read_payload api item)
    fetched_at ← gets clock
    pure (record {
      item_id = item.item_id;
      source_ref = source_ref;
      artifact_type = item.artifact_type;
      payload = payload;
      fetched_at = fetched_at;
    })

  unfoldable pub synthetic_source : Source L Payload
  unfolding discover fetch router parse
  synthetic_source = record {
    discover = discover api source_ref;
    fetch = fetch;
    parse = parse (router source_ref);
  }
