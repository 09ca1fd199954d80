-- ===== src/Ingestion/Synthetic/Items.antt =====
-- ingestion/connectors/synthetic.py: from a work item to its bundle.
use text.Mathlib.TextLemmas.{append_assoc, cons-append, nil-append}
use Prim.Native.Char.{Char}
use Prim.Native.String.{char_at}
use margin_mvp.Base.{
  ℕ, String, ◌<>◌, ◌≡◌, refl, ap, ◌∙◌, none, some, Option, List, [], ◌∷◌, ◌++◌, map, string_eq,
  pair_eq,
}
use margin_mvp.Base.Dict.{lookup, insert}
use margin_mvp.Base.Exec.{value_error, Result, ok, err}
use margin_mvp.Base.Text.{split_once}
use margin_mvp.Base.Splits.{Lacks, split_once-append}
use margin_mvp.Ingestion.Ir.{ObservedColumn}
use margin_mvp.Ingestion.Source.{RawArtifact}
use margin_mvp.Ingestion.RateLimit.Limiter.{RateLimiter}
use margin_mvp.Ingestion.Router.{check_versions, assert_versioned, parse}
use margin_mvp.Ingestion.Synthetic.{
  column_names, read_payload, behind, table_item, parse_rows, rows_bundle, observed_column, fetch,
  router, synthetic_source,
}
use margin_mvp.Ingestion.Synthetic.Stub.{get_rows, RestStub, Row, Payload, rows}

pub one-append : (c : Char) (t : String) → String.◌∷◌ c String.[] <> t ≡ String.◌∷◌ c t
one-append c t = cons-append c String.[] t ∙ ap (λ u. String.◌∷◌ c u) (nil-append t)

pub behind_lem :
    (sep : ℕ) (s left right : String)
    → split_once sep s ≡ (left, some right)
    → behind sep s ≡ ok (left, right)
unfolding behind
behind_lem sep s left right h =
    let f : String × Option String → Result (String × String) =
      λ x. elim x.1 [ none ↦ err (value_error s) | some rest ↦ ok (x.0, rest) ] in
    ap f h

behind-dot :
    (system table : String)
    → Lacks b'.' system
    → behind b'.' (system <> ("." <> table)) ≡ ok (system, table)
behind-dot system table h = behind_lem b'.' (system <> ("." <> table)) system table (
    ap (λ t. split_once b'.' (system <> t)) (one-append (char_at "." 0) table)
    ∙ split_once-append b'.' system (char_at "." 0) table h refl)

pub behind-colon :
    (kind rest : String) → Lacks b':' kind → behind b':' ((kind <> ":") <> rest) ≡ ok (kind, rest)
unfolding split_once
behind-colon kind rest h = behind_lem b':' ((kind <> ":") <> rest) kind rest (
    ap (split_once b':')
      (append_assoc kind ":" rest ∙ ap (λ t. kind <> t) (one-append (char_at ":" 0) rest))
    ∙ split_once-append b':' kind (char_at ":" 0) rest h refl)

versions_of_columns :
    (system table : String) (found : List Row) (names : List String)
    → check_versions (
        map
          (λ (c : ObservedColumn). c.schema_version)
          (map (observed_column system table found) names ++ []))
      ≡ ok tt
unfolding check_versions observed_column string_eq
versions_of_columns system table found [] = refl
versions_of_columns system table found (name ∷ names) = versions_of_columns system table found names

rows_bundle-versioned :
    (source_ref at system table : String) (found : List Row)
    → assert_versioned (rows_bundle source_ref at system table found) ≡ ok tt
unfolding assert_versioned rows_bundle string_eq
rows_bundle-versioned source_ref at system table found =
    versions_of_columns system table found (column_names found)

abbrev pub artifact_of_table : String → String → String → List Row → String → RawArtifact Payload
artifact_of_table source_ref system table found at = record {
  item_id = "rows:" <> system <> "." <> table;
  source_ref = source_ref;
  artifact_type = "rows";
  payload = rows found;
  fetched_at = at;
}

get_rows_lem :
    (api : RestStub) (system table : String) (found : List Row)
    → lookup (system, table) api.tables ≡ some found
    → get_rows api system table ≡ ok found
unfolding get_rows
get_rows_lem api system table found there = rw (there, get_rows) refl

read_payload-table :
    (api : RestStub) (source_ref system table : String) (found : List Row)
    → lookup (system, table) api.tables ≡ some found
    → read_payload api (table_item source_ref (system, table)) ≡ ok (rows found)
unfolding read_payload table_item lookup string_eq
read_payload-table api source_ref system table found there =
    rw (get_rows_lem api system table found there) refl

pub fetch-table :
    {L : Type 0} (api : RestStub) (limiter : RateLimiter L) (clock : L → String)
    (source_ref system table : String) (found : List Row) (l : L)
    → (limiter.acquire limiter.one l).0 ≡ ok tt
    → lookup (system, table) api.tables ≡ some found
    → (fetch api limiter clock source_ref (table_item source_ref (system, table)) l).0
      ≡ ok (
          artifact_of_table source_ref system table found (clock (limiter.acquire limiter.one l).1))
unfolding fetch table_item
fetch-table api limiter clock source_ref system table found l granted there =
    rw (granted, read_payload-table api source_ref system table found there) refl

-- at whatever dot the reference is split
parse_rows-table :
    (source_ref system table left right : String) (found : List Row) (at : String)
    → behind b'.' (system <> ("." <> table)) ≡ ok (left, right)
    → parse_rows source_ref (artifact_of_table source_ref system table found at)
      ≡ ok (rows_bundle source_ref at left right found)
unfolding parse_rows split_once
parse_rows-table source_ref system table left right found at split =
    rw (behind-colon "rows" (system <> "." <> table) refl) (rw split refl)

pub parse-table :
    (source_ref system table left right : String) (found : List Row) (at : String)
    → behind b'.' (system <> ("." <> table)) ≡ ok (left, right)
    → parse (router source_ref) (artifact_of_table source_ref system table found at)
      ≡ ok (rows_bundle source_ref at left right found)
unfolding parse router lookup insert string_eq
parse-table source_ref system table left right found at split =
    rw (parse_rows-table source_ref system table left right found at split)
      (rw (rows_bundle-versioned source_ref at left right found) refl)

-- fetch and parse, for a table of the connected system whose name has no dot, once the limiter has let
-- the call through: the artifact of the table's work item parses to the bundle of that very table.
pub table_round_trip :
    {L : Type 0} (api : RestStub) (limiter : RateLimiter L) (clock : L → String)
    (source_ref system table : String) (found : List Row) (l : L)
    → (limiter.acquire limiter.one l).0 ≡ ok tt
    → lookup (system, table) api.tables ≡ some found
    → Lacks b'.' system
    → (artifact : RawArtifact Payload) × ((fetch api limiter clock source_ref
          (table_item source_ref (system, table))
          l).0
        ≡ ok artifact)
      × ((synthetic_source api limiter clock source_ref).parse artifact
          ≡ ok
              (rows_bundle source_ref (clock (limiter.acquire limiter.one l).1) system table found))
unfolding synthetic_source
table_round_trip api limiter clock source_ref system table found l granted there lacks =
    let at = clock (limiter.acquire limiter.one l).1 in
    (
      artifact_of_table source_ref system table found at,
      fetch-table api limiter clock source_ref system table found l granted there,
      parse-table source_ref system table system table found at (behind-dot system table lacks),
    )
