-- ===== src/Ingestion/Router/Dispatch.antt =====
-- ingestion/router.py: `register`, `parse` and `_assert_versioned`.
use margin_mvp.Base.{
  ◌↔◌, String, ◌≡◌, refl, ◌∙◌, ap, none, some, List, [], ◌∷◌, map, arith, ◌==◌, string_eq,
  if◌then◌else◌, inl, inr, Option-cases, sym,
}
use margin_mvp.Base.Lists.{All, All-append, All-unappend, All-mapped, All-unmapped}
use margin_mvp.Base.Dict.{lookup}
use margin_mvp.Base.Dict.Laws.{lookup-insert}
use margin_mvp.Base.Exec.{ok}
use margin_mvp.Base.Result
use margin_mvp.Base.Result.{bind-eq-ok, ok-injective}
use margin_mvp.Ingestion.Ir.{
  ir_schema_version, ParsedBundle, ObservedColumn, ObservedDocument, ObservedEntity,
  ObservedRelation, owned_columns,
}
use margin_mvp.Ingestion.Source.{RawArtifact}
use margin_mvp.Ingestion.Router.{
  Parser, ParserRouter, versions, check_versions, assert_versioned, register, parse,
}

abbrev pub IsCurrent : String → Type 0
IsCurrent version = version ≡ ir_schema_version

-- each record of the bundle has the current version, each column that one of its entities owns too
pub record IsVersioned (b : ParsedBundle) : Type 0 where
  pub columns : All (λ c. IsCurrent c.schema_version) b.columns
  pub documents : All (λ d. IsCurrent d.schema_version) b.documents
  pub entities : All (λ e. IsCurrent e.schema_version) b.entities
  pub relations : All (λ r. IsCurrent r.schema_version) b.relations
  pub owned : All (λ e. All (λ c. IsCurrent c.schema_version) e.columns) b.entities

owned-flat :
    (entities : List ObservedEntity)
    → All (λ e. All (λ c. IsCurrent c.schema_version) e.columns) entities
    → All (λ c. IsCurrent c.schema_version) (owned_columns entities)
unfolding owned_columns
owned-flat [] h = tt
owned-flat (e ∷ entities) (h, rest) =
    All-append (λ c. IsCurrent c.schema_version) e.columns _ h (owned-flat entities rest)

flat-owned :
    (entities : List ObservedEntity)
    → All (λ c. IsCurrent c.schema_version) (owned_columns entities)
    → All (λ e. All (λ c. IsCurrent c.schema_version) e.columns) entities
unfolding owned_columns
flat-owned [] h = tt
flat-owned (e ∷ entities) h =
    let (here, rest) = All-unappend (λ c. IsCurrent c.schema_version) e.columns _ h in
    (here, flat-owned entities rest)

listed : (b : ParsedBundle) → IsVersioned b → All IsCurrent (versions b)
unfolding versions
listed b h =
    All-append IsCurrent _ _
      (All-mapped IsCurrent (λ (c : ObservedColumn). c.schema_version) b.columns h.columns)
      (All-append IsCurrent _ _
        (All-mapped IsCurrent (λ (d : ObservedDocument). d.schema_version) b.documents h.documents)
        (All-append IsCurrent _ _
          (All-mapped IsCurrent (λ (e : ObservedEntity). e.schema_version) b.entities h.entities)
          (All-append IsCurrent _ _
            (All-mapped IsCurrent (λ (r : ObservedRelation). r.schema_version) b.relations
              h.relations)
            (All-mapped IsCurrent (λ (c : ObservedColumn). c.schema_version) _
              (owned-flat b.entities h.owned)))))

versioned : (b : ParsedBundle) → All IsCurrent (versions b) → IsVersioned b
unfolding versions
versioned b h =
    let (columns, h₁) =
      All-unappend IsCurrent (map (λ (c : ObservedColumn). c.schema_version) b.columns) _ h in
    let (documents, h₂) =
      All-unappend IsCurrent (map (λ (d : ObservedDocument). d.schema_version) b.documents) _ h₁ in
    let (entities, h₃) =
      All-unappend IsCurrent (map (λ (e : ObservedEntity). e.schema_version) b.entities) _ h₂ in
    let (relations, owned) =
      All-unappend IsCurrent (map (λ (r : ObservedRelation). r.schema_version) b.relations) _ h₃ in
    record {
      columns = All-unmapped IsCurrent (λ (c : ObservedColumn). c.schema_version) b.columns columns;
      documents =
          All-unmapped IsCurrent (λ (d : ObservedDocument). d.schema_version) b.documents documents;
      entities =
          All-unmapped IsCurrent (λ (e : ObservedEntity). e.schema_version) b.entities entities;
      relations =
          All-unmapped IsCurrent (λ (r : ObservedRelation). r.schema_version) b.relations relations;
      owned =
          flat-owned b.entities
            (All-unmapped IsCurrent (λ (c : ObservedColumn). c.schema_version) _ owned);
    }

check_versions-ok :
    (vs : List String) → All (λ v. v ≡ ir_schema_version) vs → check_versions vs ≡ ok tt
unfolding check_versions
check_versions-ok [] h = refl
check_versions-ok (v ∷ vs) (e, h) = ground (arith, check_versions-ok vs)

All-check_versions :
    (vs : List String) → check_versions vs ≡ ok tt → All (λ v. v ≡ ir_schema_version) vs
unfolding check_versions
All-check_versions [] h = tt
All-check_versions (v ∷ vs) h = ground (arith, All-check_versions vs)

-- the two last steps of `parse`
run-ok :
    {P : Type 0} (parser : Parser P) (artifact : RawArtifact P) (b : ParsedBundle)
    → Result.bind (parser artifact) (λ bundle. Result.bind (assert_versioned bundle) λ _. ok bundle)
      ≡ ok b
    → (parser artifact ≡ ok b) × IsVersioned b
unfolding assert_versioned
run-ok parser artifact b h =
    let (b', parsed, h') = bind-eq-ok (parser artifact) _ h in
    let (_, checked, same) = bind-eq-ok (check_versions (versions b')) _ h' in
    (
      parsed ∙ same,
      versioned b (
          All-check_versions (versions b) (
            ap (λ (x : ParsedBundle). check_versions (versions x)) (sym (ok-injective same))
            ∙ checked)),
    )

module _ {P : Type 0} (parsers : ParserRouter P) (artifact : RawArtifact P) (b : ParsedBundle) where
  -- what a parse that returns `b` has done
  abbrev pub Parsed : Type 0
  Parsed =
      (parser : Parser P) × (lookup artifact.artifact_type parsers ≡ some parser)
      × (parser artifact ≡ ok b)
      × IsVersioned b

  -- ParserRouter.parse: it returns a bundle exactly if the parser registered for the artifact's type returns
  -- that bundle and every column, document, entity and relation of it has the current schema version, and every
  -- column that one of its entities owns.
  pub parse_iff : (parse parsers artifact ≡ ok b) ↔ Parsed
  unfolding parse assert_versioned
  parse_iff = (
    λ h. elim (Option-cases (lookup artifact.artifact_type parsers)) [
      | inl absent ↦ cc (rw (absent, parse) at h)
      | inr (parser, found) ↦
          let (parsed, current) = run-ok parser artifact b (rw (found, parse) at h) in
          (parser, found, parsed, current)
    ],
    λ (parser, found, parsed, current).
        rw (found, parse) (rw parsed (rw (check_versions-ok (versions b) (listed b current)))),
  )

-- ParserRouter.register: a free type gets the parser and no other type changes; a type that is taken keeps
-- its parser, as every other type does.
pub parser-register :
    {P : Type 0} (artifact_type other : String) (parser : Parser P) (parsers : ParserRouter P)
    → lookup other (register artifact_type parser parsers).1
      ≡ (elim (lookup artifact_type parsers) [
        | some _ ↦ lookup other parsers
        | none ↦ if other == artifact_type then some parser else lookup other parsers
      ])
unfolding register
parser-register artifact_type other parser parsers =
    ground (arith, lookup-insert other artifact_type parser parsers)
