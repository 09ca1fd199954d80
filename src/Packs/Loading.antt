-- ===== src/Packs/Loading.antt =====
-- packs/loader.py: `load_pack` on a client.
use margin_mvp.Base.{
  ◌≢◌, ◌≡◌, refl, inl, inr, true, false, List, [], ◌∷◌, String, none, string_eq, ◌∙◌, ap, Bool,
  ◌==◌,
}
use margin_mvp.Base.Dict.{lookup, insert}
use margin_mvp.Value.{Props, list}
use margin_mvp.Base.Dict.Laws.{lookup-insert_ne}
use margin_mvp.Base.Lists.{All, All-map, In}
use margin_mvp.Base.Exec.{Exec, err, Error, value_error, pure, lift, ◌>>=◌, ◌>>◌, for_each}
use margin_mvp.Base.Loops.{Keeps, bind-Keeps, for_each-Keeps}
use margin_mvp.Graph.Client.{Client}
use margin_mvp.Graph.Client
use margin_mvp.Graph.Client.Calls.{
  upsert_metric, upsert_benchmark, register_allowlists, run, ArePlain,
}
use margin_mvp.Graph.Client.Steps.{IsSound}
use margin_mvp.Graph.Client.Safety.{run-IsSound}
use margin_mvp.Packs.Ownership.{Owned, validate_cases}
use margin_mvp.Packs.Loader.{
  is_owned, Pack, MetricDef, BenchmarkDef, validate, load_pack, load_metric, load_benchmark,
  metric_attributes, or_none,
}

rejected : (p : Pack) (e : Error) (c : Client) → validate p ≡ err e → load_pack p c ≡ (err e, c)
unfolding load_pack lift ◌>>=◌
rejected p e c h = rw h refl

not_Owned :
    (p : Pack) (ms : List MetricDef) (m : MetricDef)
    → In m ms
    → is_owned p m.metric_key ≡ false
    → Owned p ms
    → ⊥
not_Owned p [] m there foreign owned = there
not_Owned p (n ∷ ms) m (inl same) foreign (owned, h) =
    let there = ap (λ x. is_owned p x.metric_key) same in cc
not_Owned p (n ∷ ms) m (inr there) foreign (owned, h) = not_Owned p ms m there foreign h

-- load_pack, of a pack with a metric outside the pack's namespace and the shared one: it raises a ValueError
-- on such a metric, and the client is as it was, its allow-lists and its nodes.
pub load_pack_rejects :
    (p : Pack) (c : Client) (m : MetricDef)
    → In m p.metrics
    → is_owned p m.metric_key ≡ false
    → (n : MetricDef) × In n p.metrics
      × (is_owned p n.metric_key ≡ false)
      × (load_pack p c ≡ (err (value_error n.metric_key), c))
load_pack_rejects p c m there foreign = elim (validate_cases p) [
  | inl (_, owned) ↦ absurd (not_Owned p p.metrics m there foreign owned)
  | inr (n, at, bad, raised) ↦ (n, at, bad, rejected p _ c raised)
]

pub or_none-ArePlain : (attrs : Props) → lookup "_labels" attrs ≡ none → ArePlain (or_none attrs)
unfolding or_none
or_none-ArePlain [] h = h
or_none-ArePlain (a ∷ attrs) h = h

labels_aliases : (◌≢◌) {A = String} "_labels" "aliases"
labels_aliases e =
    let f : String → Bool = λ s. s == "_labels" in
    let different : true ≡ false = unfold string_eq in ap f e in cc

pub metric_attributes-plain :
    (m : MetricDef)
    → lookup "_labels" m.attributes ≡ none
    → lookup "_labels" (metric_attributes m) ≡ none
unfolding metric_attributes
metric_attributes-plain m h =
    elim m.aliases
      as (λ aliases.
        lookup "_labels" (elim aliases [
          | [] ↦ m.attributes
          | a ∷ rest ↦ insert "aliases" (list (a ∷ rest)) m.attributes
        ])
        ≡ none) [
          | [] ↦ h
          | a ∷ rest ↦ lookup-insert_ne "_labels" "aliases" _ m.attributes labels_aliases ∙ h
        ]

load_metric-Keeps :
    (m : MetricDef) → lookup "_labels" m.attributes ≡ none → Keeps IsSound (load_metric m)
unfolding load_metric run
load_metric-Keeps m h c sound =
    run-IsSound (upsert_metric m.metric_key _ (or_none (metric_attributes m))) c
      (or_none-ArePlain _ (metric_attributes-plain m h)) sound

load_benchmark-Keeps :
    (b : BenchmarkDef) → lookup "_labels" b.attributes ≡ none → Keeps IsSound (load_benchmark b)
unfolding load_benchmark run
load_benchmark-Keeps b h c sound =
    run-IsSound (upsert_benchmark b.benchmark_key (or_none b.attributes)) c (or_none-ArePlain _ h)
      sound

register-Keeps :
    (p : Pack) → Keeps IsSound (Client.register_allowlists p.entity_subtypes p.edge_types)
unfolding run
register-Keeps p c h = run-IsSound (register_allowlists p.entity_subtypes p.edge_types) c tt h

-- load_pack, whether it returns or raises, for metrics and benchmarks with no attribute named "_labels": a
-- sound client (labels and edge types allow-listed, edges with provenance) stays sound.
pub load_pack-IsSound :
    (p : Pack) (c : Client)
    → All (λ m. lookup "_labels" m.attributes ≡ none) p.metrics
    → All (λ b. lookup "_labels" b.attributes ≡ none) p.benchmarks
    → IsSound c
    → IsSound (load_pack p c).1
unfolding load_pack lift pure
load_pack-IsSound p c metrics benchmarks sound =
    let finish : Exec Client Pack = for_each p.benchmarks load_benchmark >> pure p in
    let fill : Exec Client Pack = for_each p.metrics load_metric >> finish in
    let register = Client.register_allowlists p.entity_subtypes p.edge_types in
    let finish-Keeps : Keeps IsSound finish =
      bind-Keeps IsSound (for_each p.benchmarks load_benchmark) (λ _. pure p)
        (for_each-Keeps IsSound p.benchmarks load_benchmark
          (All-map p.benchmarks load_benchmark-Keeps benchmarks))
        (λ _ c' h. h) in
    let fill-Keeps : Keeps IsSound fill =
      bind-Keeps IsSound (for_each p.metrics load_metric) (λ _. finish)
        (for_each-Keeps IsSound p.metrics load_metric (All-map p.metrics load_metric-Keeps metrics))
        (λ _. finish-Keeps) in
    bind-Keeps IsSound (lift (validate p)) (λ _. register >> fill) (λ c' h. h)
      (λ _. bind-Keeps IsSound register (λ _. fill) (register-Keeps p) (λ _. fill-Keeps)) c sound
