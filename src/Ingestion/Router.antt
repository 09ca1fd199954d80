-- ===== src/Ingestion/Router.antt =====
-- ingestion/router.py: one parser for each artifact type, and the check of the schema version.
pub mod Dispatch
use margin_mvp.Base.{String, none, some, List, [], ◌∷◌, ◌++◌, map, ◌==◌, string_eq, if◌then◌else◌}
use margin_mvp.Base.Dict.{Dict, lookup, insert, keys}
use margin_mvp.Base.Exec.{Exec, Result, ok, err, value_error, key_error}
use margin_mvp.Base.Result
use margin_mvp.Ingestion.Ir.{
  ir_schema_version, ObservedColumn, ObservedDocument, ObservedEntity, ObservedRelation,
  ParsedBundle, owned_columns,
}
use margin_mvp.Ingestion.Source.{RawArtifact}

abbrev pub Parser : Type 0 → Type 0
Parser P = RawArtifact P → Result ParsedBundle

abbrev pub ParserRouter : Type 0 → Type 0
ParserRouter P = Dict String (Parser P)

-- the versions of the records, in the order in which they are checked
unfoldable pub versions : ParsedBundle → List String
unfolding owned_columns
versions b =
    map (λ (c : ObservedColumn). c.schema_version) b.columns
    ++ (map (λ (d : ObservedDocument). d.schema_version) b.documents
        ++ (map (λ (e : ObservedEntity). e.schema_version) b.entities
            ++ (map (λ (r : ObservedRelation). r.schema_version) b.relations
                ++ map (λ (c : ObservedColumn). c.schema_version) (owned_columns b.entities))))

unfoldable pub check_versions : List String → Result (Unit {0})
check_versions [] = ok tt
check_versions (v ∷ vs) =
    let rest = check_versions vs in if v == ir_schema_version then rest else err (value_error v)

-- `_assert_versioned`
unfoldable pub assert_versioned : ParsedBundle → Result (Unit {0})
unfolding check_versions versions
assert_versioned b = check_versions (versions b)

module _ {P : Type 0} where
  -- the taken type raises a `ValueError`, and the first parser stays
  unfoldable pub register : String → Parser P → Exec (ParserRouter P) (Unit {0})
  register artifact_type parser parsers = elim (lookup artifact_type parsers) [
    | some _ ↦ (err (value_error artifact_type), parsers)
    | none ↦ (ok tt, insert artifact_type parser parsers)
  ]

  unfoldable pub registered_types : ParserRouter P → List String
  unfolding keys
  registered_types = keys

  unfoldable pub parse : ParserRouter P → RawArtifact P → Result ParsedBundle
  unfolding assert_versioned
  parse parsers artifact = elim (lookup artifact.artifact_type parsers) [
    | none ↦ err (key_error artifact.artifact_type)
    | some parser ↦
        Result.bind (parser artifact) λ bundle. Result.bind (assert_versioned bundle) λ _. ok bundle
  ]
