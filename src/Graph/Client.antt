-- ===== src/Graph/Client.antt =====
-- graph/client.py: `GraphClient` over the in-memory store, its state, its allow-lists and the six
-- node upserts. The edges, the alias index and the read path are in the modules below.
-- A set of names is a list in the order of insertion, and the list that an exception quotes is left out.
pub mod Edges
pub mod Aliases
pub mod Read
pub mod ReadPath
pub mod Calls
pub mod Steps
pub mod Writes
pub mod Safety
pub mod Index
pub mod Presence
pub mod WriteBack
pub mod MetricNodes
pub mod Twice
use margin_mvp.Base.{
  String, Bool, true, false, not, ◌&&◌, Option, none, some, List, [], ◌∷◌, map, ◌==◌, contains,
  string_eq, if◌then◌else◌,
}
use margin_mvp.Base.Dict.{Dict, update}
use margin_mvp.Base.Exec.{Exec, Result, ok, err, write_validation_error, raise}
use margin_mvp.Value.{Atom, null, bool, text, Value, atom, list, Props, text_value, optional_text}
use margin_mvp.Graph.Model.{
  label, entity, metric, column, document, benchmark, party, core_constraints,
}
use margin_mvp.Graph.Store
use margin_mvp.Graph.Store.{Store, union, upsert_node, ensure_constraints}

pub record Client : Type 0 where
  pub store : Store
  pub entity_subtypes : List String
  pub pack_edge_types : List String

-- `GraphClient(InMemoryGraphStore())`
abbrev pub init : Client
init = record { store = Store.empty; entity_subtypes = []; pack_edge_types = [] }

-- a call of the store
unfoldable pub on_store {ℓ} : {A : Type ℓ} → Exec Store A → Exec Client A
on_store m c = let (r, s) = m c.store in (r, record c { store = s })

unfoldable pub is_none : Value → Bool
is_none (atom null) = true
is_none _ = false

-- `_clean`
unfoldable pub clean : Props → Props
unfolding is_none
clean [] = []
clean ((k, v) ∷ props) = let rest = clean props in if is_none v then rest else (k, v) ∷ rest

-- `attributes or {}`
abbrev pub or_empty : Option Props → Props
or_empty none = []
or_empty (some props) = props

unfoldable pub init_schema : Exec Client (Unit {0})
unfolding on_store ensure_constraints
init_schema = on_store (ensure_constraints core_constraints)

unfoldable pub register_allowlists : List String → List String → Exec Client (Unit {0})
register_allowlists entity_subtypes edge_types c = (
  ok tt,
  record c {
    entity_subtypes = union c.entity_subtypes entity_subtypes;
    pack_edge_types = union c.pack_edge_types edge_types;
  },
)

-- `subtype_label is not None and subtype_label not in self._entity_subtypes`
unfoldable pub is_unlisted : Option String → Client → Bool
is_unlisted none c = false
is_unlisted (some subtype) c = not (contains c.entity_subtypes subtype)

-- `(subtype_label,) if subtype_label else ()`: the empty text is false too
unfoldable pub extra_labels : Option String → List String
extra_labels none = []
extra_labels (some subtype) = if subtype == "" then [] else subtype ∷ []

abbrev pub subtype_name : Option String → String
subtype_name none = ""
subtype_name (some subtype) = subtype

unfoldable pub upsert_entity : String → Option String → Option Props → Exec Client (Unit {0})
unfolding is_unlisted on_store clean extra_labels
upsert_entity uid subtype_label attributes c =
    if is_unlisted subtype_label c
    then (err (write_validation_error (subtype_name subtype_label)), c)
    else on_store
        (upsert_node (label entity) (("uid", uid) ∷ []) (clean (or_empty attributes))
          (extra_labels subtype_label))
        c

-- Python passes any object here, and `None` is the null atom.
pub record MetricArgs : Type 0 where
  pub formula : Value
  pub unit : Value
  pub numerator_def : Value
  pub denominator_def : Value
  pub provenance : Value

unfoldable pub metric_props : MetricArgs → Option Props → Props
metric_props a attributes =
    update
      (("formula", a.formula)
        ∷ ("unit", a.unit)
        ∷ ("numerator_def", a.numerator_def)
        ∷ ("denominator_def", a.denominator_def)
        ∷ ("provenance", a.provenance)
        ∷ [])
      (or_empty attributes)

unfoldable pub upsert_metric : String → MetricArgs → Option Props → Exec Client (Unit {0})
unfolding on_store clean metric_props
upsert_metric metric_key a attributes = on_store (
    upsert_node (label metric) (("metric_key", metric_key) ∷ []) (clean (metric_props a attributes))
      [])

unfoldable pub column_key : String → String → String → Dict String String
column_key system table name = ("system", system) ∷ ("table", table) ∷ ("name", name) ∷ []

unfoldable pub column_props : Option String → List String → Bool → Props
column_props dtype sample_values has_dictionary =
    ("dtype", optional_text dtype)
    ∷ ("sample_values", list (map text sample_values))
    ∷ ("has_dictionary", atom (bool has_dictionary))
    ∷ []

unfoldable pub upsert_column :
    String → String → String → Option String → List String → Bool → Exec Client (Unit {0})
unfolding on_store clean column_key column_props
upsert_column system table name dtype sample_values has_dictionary = on_store (
    upsert_node (label column) (column_key system table name)
      (clean (column_props dtype sample_values has_dictionary)) [])

unfoldable pub document_props : Option String → String → Option String → Props
document_props title body as_of =
    ("title", optional_text title) ∷ ("text", text_value body) ∷ ("as_of", optional_text as_of) ∷ []

unfoldable pub upsert_document :
    String → Option String → String → Option String → Exec Client (Unit {0})
unfolding on_store clean document_props
upsert_document uri title body as_of =
    on_store (
      upsert_node (label document) (("uri", uri) ∷ []) (clean (document_props title body as_of)) [])

unfoldable pub upsert_benchmark : String → Option Props → Exec Client (Unit {0})
unfolding on_store clean
upsert_benchmark benchmark_key attributes = on_store (
    upsert_node (label benchmark) (("benchmark_key", benchmark_key) ∷ [])
      (clean (or_empty attributes)) [])

unfoldable pub upsert_party : String → Option Props → Exec Client (Unit {0})
unfolding on_store clean
upsert_party uid attributes =
    on_store (upsert_node (label party) (("uid", uid) ∷ []) (clean (or_empty attributes)) [])
