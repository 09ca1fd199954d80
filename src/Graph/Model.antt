-- ===== src/Graph/Model.antt =====
-- graph/model.py: the six node types, the spine edges and the identity constraints, as data.
use margin_mvp.Base.{String, Option, List, [], ◌∷◌, Bool}
use margin_mvp.Value.{Props}

pub data CoreLabel : Type 0 where
  entity metric column document benchmark party : CoreLabel

-- `CoreLabel.X.value`
unfoldable pub label : CoreLabel → String
label entity = "Entity"
label metric = "Metric"
label column = "Column"
label document = "Document"
label benchmark = "Benchmark"
label party = "Party"

pub data RelType : Type 0 where
  measures applies_to defined_in benchmarked_against : RelType
  computed_from describes has_role related_to : RelType

-- `RelType.X.value`
unfoldable pub rel_name : RelType → String
rel_name measures = "MEASURES"
rel_name applies_to = "APPLIES_TO"
rel_name defined_in = "DEFINED_IN"
rel_name benchmarked_against = "BENCHMARKED_AGAINST"
rel_name computed_from = "COMPUTED_FROM"
rel_name describes = "DESCRIBES"
rel_name has_role = "HAS_ROLE"
rel_name related_to = "RELATED_TO"

pub record EdgeProvenance : Type 0 where
  pub source_ref : String
  pub as_of : String
  pub created_by : String

pub record EntityNode : Type 0 where
  pub uid : String
  pub subtype_label : Option String
  pub attributes : Props

pub record MetricNode : Type 0 where
  pub metric_key : String
  pub formula : Option String
  pub unit : Option String
  pub numerator_def : Option String
  pub denominator_def : Option String
  pub provenance : Option String
  pub attributes : Props

pub record ColumnNode : Type 0 where
  pub system : String
  pub table : String
  pub name : String
  pub dtype : Option String
  pub sample_values : List String
  pub has_dictionary : Bool

pub record DocumentNode : Type 0 where
  pub uri : String
  pub title : Option String
  pub text : String
  pub as_of : Option String

pub record BenchmarkNode : Type 0 where
  pub benchmark_key : String
  pub attributes : Props

pub record PartyNode : Type 0 where
  pub uid : String
  pub attributes : Props

pub data ConstraintKind : Type 0 where
  unique node_key : ConstraintKind

pub record Constraint : Type 0 where
  pub label : CoreLabel
  pub properties : List String
  pub kind : ConstraintKind

abbrev single : CoreLabel → String → Constraint
single l p = record { label = l; properties = p ∷ []; kind = unique }

unfoldable pub core_constraints : List Constraint
core_constraints =
    single entity "uid"
    ∷ single metric "metric_key"
    ∷ single document "uri"
    ∷ single benchmark "benchmark_key"
    ∷ single party "uid"
    ∷ record { label = column; properties = "system" ∷ "table" ∷ "name" ∷ []; kind = node_key }
    ∷ []
