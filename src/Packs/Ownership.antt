-- ===== src/Packs/Ownership.antt =====
-- packs/loader.py: `Pack.validate` and the attributes that a metric is loaded with.
use margin_mvp.Base.{
  subst, sym, ◌≡◌, ◌≢◌, ◌↔◌, ap, ◌++◌, ◌==◌, ◌||◌, Option, some, refl, inl, inr, ◌⊎◌, true, false,
  List, [], ◌∷◌, String, none, arith, string_eq, if◌then◌else◌, contains, Bool-cases,
}
use margin_mvp.Base.Dict.{lookup}
use margin_mvp.Base.Splits.{StartsWith, split_once_iff}
use margin_mvp.Base.Text.{split_once}
use margin_mvp.Base.Lists.{All, In}
use margin_mvp.Base.Exec.{ok, err, value_error}
use margin_mvp.Value.{Props}
use margin_mvp.Packs.Loader.{
  Pack, MetricDef, validate, validate_metrics, is_owned, free_attributes, metric_namespace,
  namespace_or, reserved_metric_keys,
}
use margin_mvp.Base.{◌↔◌, some, ◌≢◌}
use margin_mvp.Packs.Loader.{metric_namespace}

abbrev pub Owned : Pack → List MetricDef → Type 0
Owned p ms = All (λ m. is_owned p m.metric_key ≡ true) ms

accepts : (p : Pack) (ms : List MetricDef) → Owned p ms → validate_metrics p ms ≡ ok tt
unfolding validate_metrics
accepts p [] h = refl
accepts p (m ∷ ms) (owned, h) = rw owned (accepts p ms h)

-- either all are owned, or the first that is not is named
abbrev pub Foreign : Pack → List MetricDef → Type 0
Foreign p ms =
    (m : MetricDef) × In m ms
    × (is_owned p m.metric_key ≡ false)
    × (validate_metrics p ms ≡ err (value_error m.metric_key))

judged : (p : Pack) (ms : List MetricDef) → Owned p ms ⊎ Foreign p ms
unfolding validate_metrics
judged p [] = inl tt
judged p (m ∷ ms) = elim (Bool-cases (is_owned p m.metric_key)) [
  | inr foreign ↦ inr (m, inl refl, foreign, rw foreign refl)
  | inl owned ↦ elim (judged p ms) [
    | inl all ↦ inl (owned, all)
    | inr (n, there, foreign, rejected) ↦ inr (n, inr there, foreign, rw owned rejected)
  ]
]

pub validate_cases :
    (p : Pack)
    → ((validate p ≡ ok tt) × Owned p p.metrics)
      ⊎ ((m : MetricDef) × In m p.metrics
          × (is_owned p m.metric_key ≡ false)
          × (validate p ≡ err (value_error m.metric_key)))
unfolding validate
validate_cases p = elim (judged p p.metrics) [
  | inl all ↦ inl (accepts p p.metrics all, all)
  | inr foreign ↦ inr foreign
]

-- the shared namespace, and the pack's own: the one it names, or its name where it names none
abbrev pub IsAllowed : Pack → String → Type 0
IsAllowed p ns =
    (ns ≡ "shared")
    ⊎ (((p.namespace ≡ some ns) × (ns ≢ ""))
        ⊎ (((p.namespace ≡ none) ⊎ (p.namespace ≡ some "")) × (ns ≡ p.name)))

-- what stands before the key's first dot is an allowed namespace
abbrev pub IsOwned : Pack → MetricDef → Type 0
IsOwned p m = (ns : String) × IsAllowed p ns × StartsWith b'.' ns m.metric_key

-- `namespace or name`
namespace_or_cases :
    (namespace : Option String) (name : String)
    → ((namespace ≡ some (namespace_or namespace name)) × (namespace_or namespace name ≢ ""))
      ⊎ (((namespace ≡ none) ⊎ (namespace ≡ some "")) × (namespace_or namespace name ≡ name))
unfolding namespace_or
namespace_or_cases none name = inr (inl refl, refl)
namespace_or_cases (some ns) name = elim (string_eq.dec ns "") [
  | yes blank ↦ inr (inr (ap some blank), ground arith)
  | no given ↦ inl (ground arith, ground arith)
]

namespace_or_lem :
    (namespace : Option String) (name ns : String)
    → ((namespace ≡ some ns) × (ns ≢ ""))
      ⊎ (((namespace ≡ none) ⊎ (namespace ≡ some "")) × (ns ≡ name))
    → ns ≡ namespace_or namespace name
unfolding namespace_or
namespace_or_lem none name ns h = ground arith
namespace_or_lem (some given) name ns h = ground arith

either : (s t u : String) → (s == t || s == u) ≡ true → (s ≡ t) ⊎ (s ≡ u)
either s t u h = ground arith

is_owned_iff : (p : Pack) (m : MetricDef) → (is_owned p m.metric_key ≡ true) ↔ IsOwned p m
unfolding is_owned metric_namespace
is_owned_iff p m =
    let starts = split_once_iff b'.' m.metric_key in
    let first : String = (split_once b'.' m.metric_key).0 in
    (
      λ h. elim (either first (namespace_or p.namespace p.name) "shared" h) [
        | inl own ↦ (
          namespace_or p.namespace p.name,
          inr (namespace_or_cases p.namespace p.name),
          (starts _).0 own,
        )
        | inr shared ↦ ("shared", inl refl, (starts "shared").0 shared)
      ],
      λ (ns, allowed, start).
          let at : first ≡ ns = (starts ns).1 start in
          elim allowed [
            | inl shared ↦ ground arith
            | inr own ↦ let same = namespace_or_lem p.namespace p.name ns own in ground arith
          ],
    )

validate_metrics_lem :
    (p : Pack) (ms : List MetricDef)
    → ((validate_metrics p ms ≡ ok tt) × All (IsOwned p) ms)
      ⊎ ((before : List MetricDef) × (m : MetricDef) × (after : List MetricDef) × (ms
            ≡ before ++ m ∷ after)
          × All (IsOwned p) before
          × ¬ IsOwned p m
          × (validate_metrics p ms ≡ err (value_error m.metric_key)))
unfolding validate_metrics
validate_metrics_lem p [] = inl (refl, tt)
validate_metrics_lem p (m ∷ ms) = elim (Bool-cases (is_owned p m.metric_key)) [
  | inr foreign ↦
      inr (
        [],
        m,
        ms,
        refl,
        tt,
        (λ owned. let same = (is_owned_iff p m).1 owned in cc),
        rw foreign refl,
      )
  | inl owned ↦
      let here = (is_owned_iff p m).0 owned in
      elim (validate_metrics_lem p ms) [
        | inl (accepted, all) ↦ inl (rw owned accepted, (here, all))
        | inr (before, n, after, split, all, foreign, rejected) ↦
            inr
              (m ∷ before, n, after, ap (λ l. m ∷ l) split, (here, all), foreign, rw owned rejected)
      ]
]

-- Pack.validate: either every metric_key has before its first dot "shared" or the pack's namespace (its name,
-- where it sets none or an empty one) and the pack is accepted, or a ValueError is raised on the first
-- metric of which that is not so.
pub validate_lem :
    (p : Pack)
    → ((validate p ≡ ok tt) × All (IsOwned p) p.metrics)
      ⊎ ((before : List MetricDef) × (m : MetricDef) × (after : List MetricDef) × (p.metrics
            ≡ before ++ m ∷ after)
          × All (IsOwned p) before
          × ¬ IsOwned p m
          × (validate p ≡ err (value_error m.metric_key)))
unfolding validate
validate_lem p = validate_metrics_lem p p.metrics

-- pack_from_dict: the free-form attributes of a metric are its fields without the reserved ones, with their
-- values.
pub lookup-free_attributes :
    (m : Props) (k : String)
    → lookup k (free_attributes m) ≡ (if contains reserved_metric_keys k then none else lookup k m)
unfolding free_attributes lookup
lookup-free_attributes [] k = ground arith
lookup-free_attributes ((j, v) ∷ m) k = elim (string_eq.dec k j) [
  | yes same ↦
      subst
        (λ i.
          lookup i (free_attributes ((j, v) ∷ m))
          ≡ (if contains reserved_metric_keys i then none else lookup i ((j, v) ∷ m)))
        (sym same) (ground (arith, lookup-free_attributes m j))
  | no other ↦ ground (arith, lookup-free_attributes m k)
]
