-- ===== src/Tests/EndToEnd.antt =====
-- The connector, the limiter and the pipeline in one run, and instances of the theorems on it.
use margin_mvp.Base.{◌/◌, ℕ, ◌+◌, ◌-◌, ◌*◌, ◌≤◌, ◌≡◌, String, [], arith, string_eq, pair_eq}
use margin_mvp.Base.Exec.{Result, ok}
use margin_mvp.Ingestion.Checkpoint.{in_memory}
use margin_mvp.Ingestion.Source.{Source}
use margin_mvp.Ingestion.Pipeline.{Run, IngestReport, run_ingest}
use margin_mvp.Ingestion.RateLimit.{TokenBucket, Clock}
use margin_mvp.Ingestion.RateLimit.Limiter.{Paced, token_limiter}
use margin_mvp.Ingestion.RateLimit.Spending.{Steady}
use margin_mvp.Ingestion.Synthetic.{synthetic_source}
use margin_mvp.Ingestion.Synthetic.Stub.{Payload, widgets_fixture}
use margin_mvp.Ingestion.Synthetic.Pace.{run_ingest-Paced}
use margin_mvp.Base.Lists.{All, length}
use margin_mvp.Ingestion.Checkpoint.{in_memory-IsLawful}
use margin_mvp.Ingestion.Pipeline.Turns.{Seen}
use margin_mvp.Ingestion.Synthetic.{discover}
use margin_mvp.Ingestion.Synthetic.Stub.{list_tables, list_documents}
use margin_mvp.Ingestion.Synthetic.Running.{run_synthetic_returns}
use margin_mvp.Tests.Loads.{config-Suggests, loaded-IsSound, loaded-IsReadable}
use margin_mvp.Tests.Data.{config, world}

-- a token of a thousand parts at hand, and a part more a tick
abbrev slow : TokenBucket
slow = record { rate = 1; capacity = 1000; tokens = 1000; last = 0 }

abbrev start_time : Clock
start_time = record { time = 5; step = 0 }

-- each step of the clock takes a tick
abbrev ticking : ℕ → ℕ
ticking step = 1

-- sleeps that are always a little too short
abbrev short_wait : ℕ → ℕ → ℕ
short_wait deficit rate = deficit / rate - 1

ticking-moves : (n : ℕ) → 1 ≤ ticking n
ticking-moves n = omega arith

abbrev stamp : Paced → String
stamp p = "2026-07-06T00:00:00+00:00"

abbrev fixture : Source Paced Payload
fixture =
    synthetic_source widgets_fixture (token_limiter ticking short_wait 1001 1000) stamp
      "synthetic://fixtures"

abbrev first_run : Result IngestReport × Run in_memory Paced
first_run =
    run_ingest in_memory fixture config world [] (record { bucket = slow; clock = start_time })

slow-Steady : Steady slow start_time
slow-Steady = record {
  valid = record { positive = ground arith; full_at_most = ground arith };
  past = ground arith;
}

run_ingest-Paced_example :
    (first_run.1.report.items_ingested * 1000 ≤ 1000 + (first_run.1.source.clock.time - 0) * 1)
    × Steady first_run.1.source.bucket first_run.1.source.clock
run_ingest-Paced_example =
    run_ingest-Paced ticking short_wait 1001 1000 widgets_fixture stamp "synthetic://fixtures"
      in_memory config slow world [] start_time slow-Steady

run_synthetic_returns_example :
    (report : IngestReport) × (first_run.0 ≡ ok report)
    × (report.items_ingested + report.items_skipped
        ≡ length (list_tables widgets_fixture) + length (list_documents widgets_fixture))
    × All
        (λ item. Seen in_memory fixture config first_run.1.ledger item)
        (discover widgets_fixture "synthetic://fixtures")
run_synthetic_returns_example =
    run_synthetic_returns ticking short_wait ticking-moves 1000 1000 (ground arith) widgets_fixture
      stamp "synthetic://fixtures" in_memory config in_memory-IsLawful world []
      (record { bucket = slow; clock = start_time }) config-Suggests loaded-IsSound
      loaded-IsReadable slow-Steady (ground arith)
