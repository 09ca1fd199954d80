-- ===== src/Ingestion/Ir.antt =====
-- ingestion/ir.py: the records that every connector produces.
use margin_mvp.Base.{String, Bool, Option, List, [], ◌∷◌, ◌++◌}
use margin_mvp.Value.{Props}

abbrev pub ir_schema_version : String
ir_schema_version = "1.0"

pub record Provenance : Type 0 where
  pub source_ref : String
  pub fetched_at : String
  pub connector_version : String

pub record ObservedColumn : Type 0 where
  pub system : String
  pub table : String
  pub name : String
  pub dtype : Option String
  pub sample_values : List String
  pub has_dictionary : Bool
  pub schema_version : String

pub record ObservedDocument : Type 0 where
  pub uri : String
  pub title : Option String
  pub text : String
  pub as_of : Option String
  pub describes : List String
  pub defines : List String
  pub schema_version : String

pub record ObservedEntity : Type 0 where
  pub uid : String
  pub candidate_labels : List String
  pub attributes : Props
  pub columns : List ObservedColumn
  pub schema_version : String

pub record ObservedRelation : Type 0 where
  pub subject_uid : String
  pub role : String
  pub object_uid : String
  pub rel_type : Option String
  pub attributes : Props
  pub schema_version : String

pub record ParsedBundle : Type 0 where
  pub provenance : Provenance
  pub columns : List ObservedColumn
  pub documents : List ObservedDocument
  pub entities : List ObservedEntity
  pub relations : List ObservedRelation

-- `(c for e in self.entities for c in e.columns)`
unfoldable pub owned_columns : List ObservedEntity → List ObservedColumn
owned_columns [] = []
owned_columns (e ∷ entities) = e.columns ++ owned_columns entities

unfoldable pub iter_columns : ParsedBundle → List ObservedColumn
unfolding owned_columns
iter_columns b = b.columns ++ owned_columns b.entities
