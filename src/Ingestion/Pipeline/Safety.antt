-- ===== src/Ingestion/Pipeline/Safety.antt =====
-- ingestion/pipeline.py: the writes of `run_ingest`.
use margin_mvp.Base.{◌≡◌}
use margin_mvp.Base.Lists.{All}
use margin_mvp.Base.Exec.{ok}
use margin_mvp.Graph.Client.Steps.{IsSound}
use margin_mvp.Ingestion.Ir.{ParsedBundle}
use margin_mvp.Ingestion.Source.{RawArtifact, Source}
use margin_mvp.Ingestion.Checkpoint.{Checkpointer}
use margin_mvp.Resolver.Funnel.{Config, World}
use margin_mvp.Ingestion.Pipeline.{run_ingest}
use margin_mvp.Ingestion.Pipeline.Loading.{Plain, load_bundle-IsSound}
use margin_mvp.Ingestion.Pipeline.Runs.{run_ingest-Keeps}

module _ (C : Checkpointer) {S P : Type 0} (source : Source S P) (config : Config)
    (parses : (artifact : RawArtifact P) (b : ParsedBundle)
      → source.parse artifact ≡ ok b
      → All Plain b.entities) where
  -- run_ingest, whether it returns or raises, for a source whose parsed entities have no attribute named
  -- "_labels": a sound client (labels and edge types allow-listed, edges with provenance) stays sound.
  pub run_ingest-IsSound :
      (w : World) (ledger : C.Ledger) (s : S)
      → IsSound w.client
      → IsSound (run_ingest C source config w ledger s).1.world.client
  run_ingest-IsSound w ledger s h =
      run_ingest-Keeps C source config IsSound (λ b. All Plain b.entities)
        (λ b plain w' sound. load_bundle-IsSound config b w' plain sound) parses w ledger s h
