-- ===== src/Packs/Loader.antt =====
-- packs/loader.py: the pack, its validation, and `load_pack`.
-- A document is what `yaml.safe_load` gives, typed as the loader reads it: an absent field is `none`.
-- A metric entry is a dict of values, so that its free-form fields pass through as they are.
use margin_mvp.Base.{
  String, Bool, ◌||◌, Option, none, some, List, [], ◌∷◌, ◌==◌, contains, string_eq, if◌then◌else◌,
}
use margin_mvp.Base.Dict.{lookup, insert}
use margin_mvp.Base.Exec.{
  Exec, Result, ok, err, value_error, key_error, lift, for_each, ◌>>=◌, ◌>>◌, pure,
}
use margin_mvp.Base.Result
use margin_mvp.Base.Text.{split_once}
use margin_mvp.Value.{Atom, null, Value, atom, list, Props, items}
use margin_mvp.Graph.Client.{Client, register_allowlists, upsert_metric, upsert_benchmark}
use margin_mvp.Graph.Client.Aliases.{metric_key_of}
use margin_mvp.Base.Exec.{type_error}

abbrev pub shared_namespace : String
shared_namespace = "shared"

unfoldable pub reserved_metric_keys : List String
reserved_metric_keys =
    "metric_key" ∷ "formula" ∷ "unit" ∷ "numerator_def" ∷ "denominator_def" ∷ "provenance"
    ∷ "aliases" ∷ []

pub record MetricDef : Type 0 where
  pub metric_key : String
  pub formula : Value
  pub unit : Value
  pub numerator_def : Value
  pub denominator_def : Value
  pub provenance : Value
  pub aliases : List Atom
  pub attributes : Props

pub record BenchmarkDef : Type 0 where
  pub benchmark_key : String
  pub attributes : Props

pub record Pack : Type 0 where
  pub name : String
  pub entity_subtypes : List String
  pub edge_types : List String
  pub metrics : List MetricDef
  pub benchmarks : List BenchmarkDef
  pub namespace : Option String

-- `self.namespace or self.name`: an empty namespace is no namespace
unfoldable pub namespace_or : Option String → String → String
namespace_or none name = name
namespace_or (some ns) name = if ns == "" then name else ns

unfoldable pub metric_namespace : Pack → String
unfolding namespace_or
metric_namespace p = namespace_or p.namespace p.name

-- `metric_key.split(".", 1)[0]`
abbrev pub namespace_of : String → String
namespace_of metric_key = (split_once b'.' metric_key).0

unfoldable pub is_owned : Pack → String → Bool
unfolding metric_namespace
is_owned p metric_key =
    namespace_of metric_key == metric_namespace p || namespace_of metric_key == shared_namespace

unfoldable pub validate_metrics : Pack → List MetricDef → Result (Unit {0})
unfolding is_owned
validate_metrics p [] = ok tt
validate_metrics p (m ∷ ms) =
    let rest = validate_metrics p ms in
    if is_owned p m.metric_key then rest else err (value_error m.metric_key)

unfoldable pub validate : Pack → Result (Unit {0})
unfolding validate_metrics
validate p = validate_metrics p p.metrics

-- a key of a document: not there, there with no value, or with one
pub data Entry {ℓ} (A : Type ℓ) : Type ℓ where
  absent null_entry : Entry A
  given : A → Entry A

pub record BenchmarkDoc : Type 0 where
  pub benchmark_key : Option String
  pub attributes : Entry Props

pub record PackDoc : Type 0 where
  pub name : Option String
  pub namespace : Option String
  pub entity_subtypes : Entry (List String)
  pub edge_types : Entry (List String)
  pub metrics : Entry (List Props)
  pub benchmarks : Entry (List BenchmarkDoc)

-- `d[k]`
abbrev pub required {ℓ} : {A : Type ℓ} → String → Option A → Result A
required k none = err (key_error k)
required k (some a) = ok a

-- `tuple(d.get(k, ()))` and `dict(d.get(k, {}))`: a `TypeError` where the key has no value
unfoldable pub or_nil {ℓ} : {A : Type ℓ} → Entry (List A) → Result (List A)
or_nil absent = ok []
or_nil null_entry = err type_error
or_nil (given xs) = ok xs

-- `m.get(k)`
unfoldable pub field : String → Props → Value
field k m = elim (lookup k m) [ none ↦ atom null | some v ↦ v ]

-- `tuple(m.get("aliases", ()))`: an alias list that is written as `null` raises a `TypeError`
unfoldable pub aliases_field : Props → Result (List Atom)
unfolding items
aliases_field m = elim (lookup "aliases" m) [ none ↦ ok [] | some v ↦ items v ]

unfoldable pub free_attributes : Props → Props
free_attributes [] = []
free_attributes ((k, v) ∷ m) =
    let rest = free_attributes m in if contains reserved_metric_keys k then rest else (k, v) ∷ rest

unfoldable pub metric_from : Props → Result MetricDef
unfolding metric_key_of field aliases_field free_attributes
metric_from m = Result.bind (metric_key_of m) λ key. Result.bind (aliases_field m) λ aliases.
    ok (record {
      metric_key = key;
      formula = field "formula" m;
      unit = field "unit" m;
      numerator_def = field "numerator_def" m;
      denominator_def = field "denominator_def" m;
      provenance = field "provenance" m;
      aliases = aliases;
      attributes = free_attributes m;
    })

unfoldable pub benchmark_from : BenchmarkDoc → Result BenchmarkDef
unfolding or_nil
benchmark_from b = Result.bind (required "benchmark_key" b.benchmark_key) λ key.
    Result.bind (or_nil b.attributes)
      λ attributes. ok (record { benchmark_key = key; attributes = attributes })

unfoldable pub each {ℓ κ} : {A : Type ℓ} {B : Type κ} → (A → Result B) → List A → Result (List B)
each f [] = ok []
each f (x ∷ xs) = Result.bind (f x) λ y. Result.bind (each f xs) λ ys. ok (y ∷ ys)

unfoldable pub pack_from_dict : PackDoc → Result Pack
unfolding each metric_from benchmark_from or_nil
pack_from_dict d = Result.bind (required "name" d.name) λ name.
    Result.bind (or_nil d.entity_subtypes) λ entity_subtypes.
      Result.bind (or_nil d.edge_types) λ edge_types. Result.bind (or_nil d.metrics) λ metric_docs.
        Result.bind (each metric_from metric_docs) λ metrics.
          Result.bind (or_nil d.benchmarks) λ benchmark_docs.
            Result.bind (each benchmark_from benchmark_docs) λ benchmarks. ok (record {
              name = name;
              entity_subtypes = entity_subtypes;
              edge_types = edge_types;
              metrics = metrics;
              benchmarks = benchmarks;
              namespace = d.namespace;
            })

-- `attrs or None`
unfoldable pub or_none : Props → Option Props
or_none [] = none
or_none (p ∷ props) = some (p ∷ props)

-- the attributes of a metric, with its aliases among them if it has any
unfoldable pub metric_attributes : MetricDef → Props
metric_attributes m = elim m.aliases [
  | [] ↦ m.attributes
  | a ∷ rest ↦ insert "aliases" (list (a ∷ rest)) m.attributes
]

unfoldable pub load_metric : MetricDef → Exec Client (Unit {0})
unfolding or_none metric_attributes
load_metric m =
    upsert_metric m.metric_key
      (record {
        formula = m.formula;
        unit = m.unit;
        numerator_def = m.numerator_def;
        denominator_def = m.denominator_def;
        provenance = m.provenance;
      })
      (or_none (metric_attributes m))

unfoldable pub load_benchmark : BenchmarkDef → Exec Client (Unit {0})
unfolding or_none
load_benchmark b = upsert_benchmark b.benchmark_key (or_none b.attributes)

unfoldable pub load_pack : Pack → Exec Client Pack
unfolding validate for_each load_metric load_benchmark register_allowlists ◌>>=◌
load_pack p = do
  lift (validate p)
  register_allowlists p.entity_subtypes p.edge_types
  for_each p.metrics load_metric
  for_each p.benchmarks load_benchmark
  pure p

-- `load_pack_file`, over what `yaml.safe_load` makes of the file, or how reading it fails
module _ (safe_load : String → Result PackDoc) where
  unfoldable pub load_pack_file : String → Exec Client Pack
  unfolding pack_from_dict load_pack ◌>>=◌
  load_pack_file path = do
    data_of ← lift (safe_load path)
    p ← lift (pack_from_dict data_of)
    load_pack p
