-- ===== src/Tests/Data.antt =====
-- The inputs of the tests: the neutral pack and fixture of the repository, cut down.
use margin_mvp.Base.{
  String, false, some, none, List, [], ◌∷◌, map, string_eq, pair_eq, list_eq, if◌then◌else◌, ◌==◌,
}
use margin_mvp.Base.Dict.{Dict}
use margin_mvp.Base.Exec.{ok, err, value_error}
use margin_mvp.Value.{text, Value, list, text_value, Props}
use margin_mvp.Graph.Model.{EdgeProvenance}
use margin_mvp.Graph.Client.{Client, init}
use margin_mvp.Graph.Client.Calls.{Call, register_allowlists, upsert_entity, relate_entities}
use margin_mvp.Packs.Loader.{Pack, MetricDef, load_pack}
use margin_mvp.Ingestion.Ir.{ObservedColumn, ParsedBundle}
use margin_mvp.Ingestion.Source.{WorkItem, RawArtifact, Source}
use margin_mvp.Ingestion.Synthetic.Stub.{RestStub, Row}
use margin_mvp.Ingestion.RateLimit.{TokenBucket}
use margin_mvp.Resolver.Suggest.{string_similarity}
use margin_mvp.Resolver.Funnel.{Config, World}

abbrev pub texts : List String → Value
texts ss = list (map text ss)

abbrev pub prov : EdgeProvenance
prov = record { source_ref = "synthetic"; as_of = "2026-01-01"; created_by = "test" }

abbrev pub w1 : Dict String String
w1 = ("uid", "w1") ∷ []

abbrev pub w2 : Dict String String
w2 = ("uid", "w2") ∷ []

abbrev pub red : Props
red = ("colour", text_value "red") ∷ []

abbrev pub widget : List String
widget = "Widget" ∷ []

abbrev pub calls : List Call
calls =
    register_allowlists ("Widget" ∷ []) ("CONTAINS" ∷ [])
    ∷ upsert_entity "w1" (some "Widget") (some red)
    ∷ upsert_entity "w2" (some "Ghost") none
    ∷ relate_entities "w1" "w2" "part" prov "CONTAINS"
    ∷ []

abbrev pub weight : MetricDef
weight = record {
  metric_key = "widgets.weight";
  formula = text_value "m";
  unit = text_value "gram";
  numerator_def = text_value "m";
  denominator_def = text_value "1";
  provenance = text_value "test";
  aliases = text "weight" ∷ text "wgt" ∷ [];
  attributes = red;
}

abbrev pub foreign : MetricDef
foreign = record weight { metric_key = "gadgets.weight" }

abbrev pub widgets : Pack
widgets = record {
  name = "widgets";
  entity_subtypes = "Widget" ∷ [];
  edge_types = "CONTAINS" ∷ [];
  metrics = weight ∷ [];
  benchmarks = [];
  namespace = none;
}

abbrev pub mixed : Pack
mixed = record widgets { metrics = weight ∷ foreign ∷ [] }

abbrev pub loaded : Client
loaded = (load_pack widgets init).1

abbrev pub named : String → ObservedColumn
named name = record {
  system = "sys";
  table = "t";
  name = name;
  dtype = none;
  sample_values = [];
  has_dictionary = false;
  schema_version = "1.0";
}

abbrev pub config : Config
config = record { suggester = string_similarity; threshold = 6000; top_k = 3 }

abbrev pub world : World
world = record { client = loaded; queue = [] }

abbrev pub new_world : World
new_world = record { client = init; queue = [] }

abbrev pub item : String → WorkItem
item id = record { item_id = id; source_ref = "list"; artifact_type = "rows"; metadata = [] }

abbrev pub weights : List Row
weights = (("wgt", text "3") ∷ []) ∷ []

abbrev pub api : RestStub
api = record { tables = (("sys", "t"), weights) ∷ []; documents = [] }

-- one document, and a column that nothing explains
abbrev pub bundle : ParsedBundle
bundle = record {
  provenance = record { source_ref = "list"; fetched_at = "2026-01-01"; connector_version = "1" };
  columns = named "wgt" ∷ [];
  documents =
      record {
        uri = "doc://1";
        title = none;
        text = "t";
        as_of = none;
        describes = [];
        defines = [];
        schema_version = "1.0";
      }
      ∷ [];
  entities = [];
  relations = [];
}

abbrev pub artifact_of : WorkItem → RawArtifact Unit
artifact_of i = record {
  item_id = i.item_id;
  source_ref = i.source_ref;
  artifact_type = i.artifact_type;
  payload = tt;
  fetched_at = "2026-01-01";
}

abbrev pub source : Source Unit Unit
source = record {
  discover = item "a" ∷ item "b" ∷ [];
  fetch = λ i s. (ok (artifact_of i), s);
  parse = λ artifact. ok bundle;
}

-- a source whose item "b" does not parse
abbrev pub broken : Source Unit Unit
broken = record {
  discover = item "a" ∷ item "b" ∷ item "c" ∷ [];
  fetch = λ i s. (ok (artifact_of i), s);
  parse = λ artifact. if artifact.item_id == "b" then err (value_error "b") else ok bundle;
}

abbrev pub bucket : TokenBucket
bucket = record { rate = 2; capacity = 10; tokens = 1; last = 0 }
