-- ===== src/Packs/Twice.antt =====
-- packs/loader.py: `load_pack` on a client that has the pack already.
use margin_mvp.Base.{◌≡◌, refl, sym, ap, ◌∙◌, subst, List, [], ◌∷◌, ◌++◌, map, none, string_eq}
use margin_mvp.Base.Lists.{All, All-append, All-map, All-of}
use margin_mvp.Base.Dict.{lookup}
use margin_mvp.Base.Exec.{Exec, Result, ok, pure, lift, for_each, ◌>>◌}
use margin_mvp.Graph.Store.Merge.{union-union}
use margin_mvp.Graph.Model.{metric, benchmark}
use margin_mvp.Graph.Client
use margin_mvp.Graph.Client.{Client}
use margin_mvp.Graph.Client.Calls
use margin_mvp.Graph.Client.Calls.{Call, run, run_all, IsPlain}
use margin_mvp.Graph.Client.Steps.{IsSound, Done, node_step, lookup-clean_of_absent}
use margin_mvp.Graph.Client.Writes.{metric_props_plain}
use margin_mvp.Graph.Client.Safety.{run-IsSound}
use margin_mvp.Graph.Client.Twice.{
  IsRepeatable, run_all-append, run_all_twice, all_writes, run_all_lem,
}
use margin_mvp.Packs.Loader.{
  Pack, MetricDef, BenchmarkDef, validate, load_pack, load_metric, load_benchmark,
  metric_attributes, or_none,
}
use margin_mvp.Packs.Loading.{or_none-ArePlain, metric_attributes-plain, load_pack-IsSound}
use margin_mvp.Base.Returns.{bind_of_ok}
use margin_mvp.Base.Replay.{write_all}
use margin_mvp.Graph.Store.Script.{write}

-- the calls that load a pack, after its allow-lists are registered
abbrev metric_call : MetricDef → Call
metric_call m =
    Calls.upsert_metric m.metric_key
      (record {
        formula = m.formula;
        unit = m.unit;
        numerator_def = m.numerator_def;
        denominator_def = m.denominator_def;
        provenance = m.provenance;
      })
      (or_none (metric_attributes m))

abbrev benchmark_call : BenchmarkDef → Call
benchmark_call b = Calls.upsert_benchmark b.benchmark_key (or_none b.attributes)

abbrev PlainMetric : MetricDef → Type 0
PlainMetric m = lookup "_labels" m.attributes ≡ none

abbrev PlainBenchmark : BenchmarkDef → Type 0
PlainBenchmark b = lookup "_labels" b.attributes ≡ none

module _ {A : Type 0} (body : A → Exec Client (Unit {0})) (call : A → Call)
    (same : (x : A) (c : Client) → body x c ≡ run (call x) c) where
  -- a loop of calls that return, on a sound client
  loop_lem :
      (xs : List A) (c : Client)
      → All (λ x. (d : Client) → IsSound d → Done (body x d)) xs
      → IsSound c
      → (for_each xs body c ≡ (ok tt, run_all (map call xs) c)) × IsSound (run_all (map call xs) c)
  unfolding for_each run_all
  loop_lem [] c done sound = (refl, sound)
  loop_lem (x ∷ xs) c (one, rest) sound =
      let (returned, sound') = one c sound in
      let (others, last) = loop_lem xs (body x c).1 rest sound' in
      (
        rw returned (others ∙ ap (λ r. (ok tt, run_all (map call xs) r.1)) (same x c)),
        subst (λ r. IsSound (run_all (map call xs) r.1)) (same x c) last,
      )

load_metric-Done :
    (m : MetricDef) → PlainMetric m → (c : Client) → IsSound c → Done (load_metric m c)
unfolding load_metric Client.upsert_metric
load_metric-Done m plain c sound =
    node_step metric _ _ [] c tt
      (lookup-clean_of_absent "_labels" _ (
        metric_props_plain _ (or_none (metric_attributes m))
          (or_none-ArePlain _ (metric_attributes-plain m plain))))
      sound

load_benchmark-Done :
    (b : BenchmarkDef) → PlainBenchmark b → (c : Client) → IsSound c → Done (load_benchmark b c)
unfolding load_benchmark Client.upsert_benchmark
load_benchmark-Done b plain c sound =
    node_step benchmark _ _ [] c tt (lookup-clean_of_absent "_labels" _ (or_none-ArePlain _ plain))
      sound

load_metric_lem : (m : MetricDef) (c : Client) → load_metric m c ≡ run (metric_call m) c
unfolding load_metric run
load_metric_lem m c = refl

load_benchmark_lem : (b : BenchmarkDef) (c : Client) → load_benchmark b c ≡ run (benchmark_call b) c
unfolding load_benchmark run
load_benchmark_lem b c = refl

lift_ok : (r : Result (Unit {0})) (c : Client) → r ≡ ok tt → lift r c ≡ (ok tt, c)
unfolding lift
lift_ok r c h = ap (λ x. (x, c)) h

All-of_map :
    {A : Type 0} (P : Call → Type 0) (f : A → Call) (xs : List A)
    → All (λ x. P (f x)) xs
    → All P (map f xs)
All-of_map P f [] h = tt
All-of_map P f (x ∷ xs) (h, hs) = (h, All-of_map P f xs hs)

module _ (p : Pack) where
  abbrev calls : List Call
  calls = map metric_call p.metrics ++ map benchmark_call p.benchmarks

  abbrev registered : Client → Client
  registered c = (Client.register_allowlists p.entity_subtypes p.edge_types c).1

  register_lem :
      (c : Client)
      → Client.register_allowlists p.entity_subtypes p.edge_types c ≡ (ok tt, registered c)
  unfolding Client.register_allowlists
  register_lem c = refl

  registered-IsSound : (c : Client) → IsSound c → IsSound (registered c)
  unfolding run
  registered-IsSound c sound =
      run-IsSound (Calls.register_allowlists p.entity_subtypes p.edge_types) c tt sound

  module _ (plain : All PlainMetric p.metrics) (plain_too : All PlainBenchmark p.benchmarks) where
    -- on a sound client a valid pack is loaded by its calls
    load_pack_lem :
        (c : Client)
        → validate p ≡ ok tt
        → IsSound c
        → load_pack p c ≡ (ok p, run_all calls (registered c))
    unfolding load_pack
    load_pack_lem c valid sound =
        let finish : Exec Client Pack = for_each p.benchmarks load_benchmark >> pure p in
        let fill : Exec Client Pack = for_each p.metrics load_metric >> finish in
        let register = Client.register_allowlists p.entity_subtypes p.edge_types in
        let half : Client = run_all (map metric_call p.metrics) (registered c) in
        let (metrics, sound') =
          loop_lem load_metric metric_call load_metric_lem p.metrics (registered c)
            (All-map p.metrics load_metric-Done plain) (registered-IsSound c sound) in
        let (benchmarks, _) =
          loop_lem load_benchmark benchmark_call load_benchmark_lem p.benchmarks half
            (All-map p.benchmarks load_benchmark-Done plain_too) sound' in
        bind_of_ok (lift (validate p)) (λ _. register >> fill) c (lift_ok (validate p) c valid)
        ∙ bind_of_ok register (λ _. fill) c (register_lem c)
        ∙ bind_of_ok (for_each p.metrics load_metric) (λ _. finish) (registered c) metrics
        ∙ bind_of_ok (for_each p.benchmarks load_benchmark) (λ _. pure p) half benchmarks
        ∙ ap (λ d. (ok p, d))
            (sym (
              run_all-append (map metric_call p.metrics) (map benchmark_call p.benchmarks)
                (registered c)))

    calls-IsPlain : All IsPlain calls
    calls-IsPlain =
        All-append IsPlain (map metric_call p.metrics) (map benchmark_call p.benchmarks)
          (All-of_map IsPlain metric_call p.metrics
            (All-map p.metrics (λ m h. or_none-ArePlain _ (metric_attributes-plain m h)) plain))
          (All-of_map IsPlain benchmark_call p.benchmarks
            (All-map p.benchmarks (λ b h. or_none-ArePlain _ h) plain_too))

    calls-IsRepeatable : All IsRepeatable calls
    calls-IsRepeatable =
        All-append IsRepeatable (map metric_call p.metrics) (map benchmark_call p.benchmarks)
          (All-of_map IsRepeatable metric_call p.metrics (All-of _ (λ m. tt) p.metrics))
          (All-of_map IsRepeatable benchmark_call p.benchmarks (All-of _ (λ b. tt) p.benchmarks))

    -- the allow-lists of the pack are registered once
    registered_again :
        (c : Client) → registered (run_all calls (registered c)) ≡ run_all calls (registered c)
    unfolding Client.register_allowlists
    registered_again c =
        let d : Client = registered c in
        let once = run_all_lem calls d d.store calls-IsRepeatable in
        ap registered once
        ∙ (λ i. record {
          store = write_all write (all_writes d calls) d.store;
          entity_subtypes = union-union c.entity_subtypes p.entity_subtypes i;
          pack_edge_types = union-union c.pack_edge_types p.edge_types i;
        })
        ∙ sym once

    -- load_pack, of a pack that owns its metrics, on a sound client (labels and edge types allow-listed, edges with
    -- provenance), no metric or benchmark with an attribute named "_labels": it returns, and loading the
    -- pack again returns and leaves the client as it was, allow-lists, nodes and edges.
    pub load_pack_twice :
        (c : Client)
        → validate p ≡ ok tt
        → IsSound c
        → let first : Result Pack × Client = load_pack p c in
          (first.0 ≡ ok p) × (load_pack p first.1 ≡ (ok p, first.1))
    load_pack_twice c valid sound =
        let left : Client = run_all calls (registered c) in
        let first = load_pack_lem c valid sound in
        let sound' : IsSound left =
          subst (λ r. IsSound r.1) first (load_pack-IsSound p c plain plain_too sound) in
        (
          ap (λ r. r.0) first,
          ap (λ r. load_pack p r.1) first
              ∙ load_pack_lem left valid sound'
              ∙ ap (λ d. (ok p, run_all calls d)) (registered_again c)
              ∙ ap (λ d. (ok p, d))
                  (run_all_twice calls (registered c) calls-IsPlain calls-IsRepeatable)
              ∙ sym (ap (λ r. (ok p, r.1)) first),
        )
