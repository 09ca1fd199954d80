-- ===== src/Tests/Ingestion.antt =====
-- The ingestion's tests, and instances of its theorems.
use margin_mvp.Base.{
  ◌/◌, ℕ, ◌+◌, ◌-◌, ◌*◌, ◌≤◌, String, ◌≡◌, refl, ◌↔◌, some, none, [], ◌∷◌, string_eq, pair_eq,
  list_eq, arith, if◌then◌else◌, ◌==◌,
}
use margin_mvp.Base.Lists.{All}
use margin_mvp.Base.Dict.{lookup}
use margin_mvp.Base.Exec.{ok, pure}
use margin_mvp.Graph.Client.Steps.{IsSound}
use margin_mvp.Graph.Client.Safety.{init-IsSound}
use margin_mvp.Ingestion.Source.{RawArtifact}
use margin_mvp.Ingestion.Checkpoint.{in_memory, IsLawful, in_memory-IsLawful}
use margin_mvp.Ingestion.Pipeline.{Run, IngestReport, no_report, run_ingest, load_bundle}
use margin_mvp.Ingestion.Pipeline.Contents.{HasRecords, load_bundle-HasRecords}
use margin_mvp.Ingestion.Pipeline.Loading.{Plain}
use margin_mvp.Ingestion.Pipeline.Resume.{run_ingest_twice}
use margin_mvp.Ingestion.Pipeline.Safety.{run_ingest-IsSound}
use margin_mvp.Ingestion.RateLimit.{TokenBucket, Clock, acquired, out_of_fuel, acquire}
use margin_mvp.Ingestion.RateLimit.Limiter.{RateLimiter}
use margin_mvp.Ingestion.RateLimit.Bounds.{IsValid, Requests, serve, serve_bound}
use margin_mvp.Ingestion.RateLimit.Waiting.{acquire_returns, acquire_stalls}
use margin_mvp.Resolver.Funnel.{Resolution, escalation}
use margin_mvp.Base.Text.{split_once}
use margin_mvp.Ingestion.Synthetic.{fetch, table_item, synthetic_source, rows_bundle}
use margin_mvp.Ingestion.Synthetic.Stub.{Payload}
use margin_mvp.Ingestion.Synthetic.Items.{table_round_trip}
use margin_mvp.Ingestion.Router.{ParserRouter, parse}
use margin_mvp.Ingestion.Router.Dispatch.{Parsed, parse_iff}
use margin_mvp.Ingestion.Ir.{ParsedBundle}
use margin_mvp.Base.Result.{ok-injective}
use margin_mvp.Base.{Bool, true, subst, sym}
use margin_mvp.Tests.Data.{
  api, weights, artifact_of, named, bundle, config, new_world, source, bucket, item,
}

abbrev escalation_of_wgt : Resolution
escalation_of_wgt = escalation (named "wgt") []

abbrev report : IngestReport
report = record {
  items_ingested = 2;
  items_skipped = 0;
  resolutions = escalation_of_wgt ∷ escalation_of_wgt ∷ [];
  bundles = bundle ∷ bundle ∷ [];
}

run_ingest_twice_example :
    run_ingest in_memory source config new_world
      (run_ingest in_memory source config new_world [] tt).1.ledger
      tt
    ≡ (
      ok (record no_report { items_skipped = 2 }),
      record {
        world = new_world;
        ledger = (run_ingest in_memory source config new_world [] tt).1.ledger;
        source = tt;
        report = record no_report { items_skipped = 2 };
      },
    )
unfolding run_ingest string_eq pair_eq margin_mvp.Ingestion.Pipeline.visit
    margin_mvp.Ingestion.Pipeline.ingest load_bundle margin_mvp.Graph.Client.upsert_document
    margin_mvp.Graph.Store.upsert_node lookup margin_mvp.Base.Dict.update
    margin_mvp.Base.Dict.insert margin_mvp.Graph.Client.upsert_column
    margin_mvp.Graph.Store.Key.node_key_eq margin_mvp.Graph.Store.Key.node_key
    margin_mvp.Graph.Model.label margin_mvp.Graph.Client.Aliases.metric_aliases
    margin_mvp.Graph.Client.Aliases.index_metrics margin_mvp.Graph.Store.nodes_by_label
    margin_mvp.Graph.Client.Aliases.metric_terms margin_mvp.Graph.Client.Aliases.collect_terms
    margin_mvp.Resolver.Suggest.string_similarity margin_mvp.Ingestion.Checkpoint.add_done
run_ingest_twice_example =
    run_ingest_twice in_memory source config in_memory-IsLawful new_world new_world [] tt tt report
      refl

abbrev broken_start : Run in_memory Unit
broken_start = record { world = new_world; ledger = []; source = tt; report = no_report }

-- the second run, in an empty graph but with the ledger of the first
abbrev broken_again : Run in_memory Unit
broken_again = record broken_start { ledger = ("list", "a") ∷ [] }

bundle-Plain :
    (artifact : RawArtifact Unit) (b : ParsedBundle)
    → source.parse artifact ≡ ok b
    → All Plain b.entities
bundle-Plain artifact b parsed = subst (λ x. All Plain x.entities) (ok-injective parsed) tt

run_ingest-IsSound_example :
    IsSound (run_ingest in_memory source config new_world [] tt).1.world.client
run_ingest-IsSound_example =
    run_ingest-IsSound in_memory source config bundle-Plain new_world [] tt init-IsSound

bucket-IsValid : IsValid bucket
bucket-IsValid = record { positive = ground arith; full_at_most = ground arith }

abbrev requests : Requests
requests = (3, 5) ∷ (9, 6) ∷ (4, 20) ∷ []

serve_bound_example :
    ((serve requests bucket).1 + (serve requests bucket).0.tokens
      ≤ 10 + ((serve requests bucket).0.last - 0) * 2)
    × (0 ≤ (serve requests bucket).0.last)
    × IsValid (serve requests bucket).0
serve_bound_example = serve_bound requests bucket bucket-IsValid

abbrev clock : Clock
clock = record { time = 1; step = 0 }

acquire_returns_example :
    (b : TokenBucket) × (c : Clock) × (acquire (λ n. n + 1) (λ deficit rate. 0) 7 7 clock bucket
      ≡ acquired b c)
acquire_returns_example =
    acquire_returns (λ n. n + 1) (λ deficit rate. 0) 7 (λ n. omega arith) 6 clock bucket
      bucket-IsValid (ground arith) (ground arith) (ground arith)

abbrev frozen : Clock
frozen = record { time = 0; step = 0 }

-- one part is missing, and half a tick would bring it
acquire_stalls_example :
    acquire (λ n. 0) (λ deficit rate. deficit / rate) 100 2 frozen bucket ≡ out_of_fuel
acquire_stalls_example =
    acquire_stalls (λ n. 0) (λ deficit rate. deficit / rate) 2 (λ n. refl) 100 frozen bucket
      (ground arith) refl (ground arith) (ground arith)

abbrev parsers : ParserRouter Unit
parsers = ("rows", source.parse) ∷ []

parse_iff_example :
    (parse parsers (artifact_of (item "a")) ≡ ok bundle)
    ↔ Parsed parsers (artifact_of (item "a")) bundle
parse_iff_example = parse_iff parsers (artifact_of (item "a")) bundle

-- a limiter that lets every call through
abbrev unlimited : RateLimiter String
unlimited = record { one = 1; acquire = λ tokens. pure tt; try_acquire = λ tokens. pure true }

table_round_trip_example :
    (artifact : RawArtifact Payload) × ((fetch api unlimited
        (λ l. l)
        "synthetic"
        (table_item "synthetic" ("sys", "t"))
        "2026-01-01").0
      ≡ ok artifact)
    × ((synthetic_source api unlimited (λ l. l) "synthetic").parse artifact
        ≡ ok (rows_bundle "synthetic" "2026-01-01" "sys" "t" weights))
unfolding pure lookup string_eq pair_eq split_once
table_round_trip_example =
    table_round_trip api unlimited (λ l. l) "synthetic" "sys" "t" weights "2026-01-01" refl refl
      refl

load_bundle-HasRecords_example : HasRecords bundle (load_bundle config bundle new_world).1.client
unfolding load_bundle string_eq pair_eq margin_mvp.Ingestion.Pipeline.visit
    margin_mvp.Ingestion.Pipeline.ingest margin_mvp.Graph.Client.upsert_document
    margin_mvp.Graph.Store.upsert_node lookup margin_mvp.Base.Dict.update
    margin_mvp.Base.Dict.insert margin_mvp.Graph.Client.upsert_column
    margin_mvp.Graph.Store.Key.node_key_eq margin_mvp.Graph.Store.Key.node_key
    margin_mvp.Graph.Model.label margin_mvp.Graph.Client.Aliases.metric_aliases
    margin_mvp.Graph.Client.Aliases.index_metrics margin_mvp.Graph.Store.nodes_by_label
    margin_mvp.Graph.Client.Aliases.metric_terms margin_mvp.Graph.Client.Aliases.collect_terms
    margin_mvp.Resolver.Suggest.string_similarity margin_mvp.Ingestion.Checkpoint.add_done
load_bundle-HasRecords_example =
    load_bundle-HasRecords config bundle new_world {resolutions = escalation_of_wgt ∷ []} refl
