-- ===== src/Ingestion/Synthetic/Stub.antt =====
-- ingestion/connectors/synthetic.py: `InMemoryRestStub`, the source API with its answers in memory.
use margin_mvp.Base.{String, Option, none, some, List, [], ◌∷◌, string_eq, pair_eq}
use margin_mvp.Base.Dict.{Dict, lookup, keys}
use margin_mvp.Base.Exec.{Result, ok, err, key_error}
use margin_mvp.Value.{Atom, int, text}

abbrev pub Row : Type 0
Row = Dict String Atom

-- a stored document; an absent text is not the same as a null one
pub record DocumentRow : Type 0 where
  pub title : Option String
  pub text : Option Atom
  pub as_of : Option String

pub data Payload : Type 0 where
  rows : List Row → Payload
  document : DocumentRow → Payload

-- `InMemoryRestStub`
pub record RestStub : Type 0 where
  pub tables : Dict (String × String) (List Row)
  pub documents : Dict String DocumentRow

unfoldable pub list_tables : RestStub → List (String × String)
unfolding keys
list_tables api = keys api.tables

unfoldable pub list_documents : RestStub → List String
unfolding keys
list_documents api = keys api.documents

unfoldable pub get_rows : RestStub → String → String → Result (List Row)
get_rows api system table = elim (lookup (system, table) api.tables) [
  | none ↦ err (key_error table)
  | some found ↦ ok found
]

unfoldable pub get_document : RestStub → String → Result DocumentRow
get_document api uri = elim (lookup uri api.documents) [
  | none ↦ err (key_error uri)
  | some found ↦ ok found
]

-- `widgets_fixture`: columns for the three tiers, and a document
abbrev pub widgets_fixture : RestStub
widgets_fixture = record {
  tables =
      (
        ("warehouse", "parts"),
        (("weight", int 12) ∷ ("lenght", int 40) ∷ ("xyzzy", text "a") ∷ [])
            ∷ (("weight", int 15) ∷ ("lenght", int 55) ∷ ("xyzzy", text "b") ∷ [])
            ∷ [],
      )
      ∷ [];
  documents =
      (
        "doc://parts/overview",
        record {
          title = some "Parts overview";
          text = some (text "Neutral prose describing the parts dataset.");
          as_of = some "2026-07-06";
        },
      )
      ∷ [];
}
