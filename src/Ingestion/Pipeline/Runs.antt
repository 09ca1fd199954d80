-- ===== src/Ingestion/Pipeline/Runs.antt =====
-- ingestion/pipeline.py: what `run_ingest` keeps of the client, if `load_bundle` keeps it.
use margin_mvp.Base.{◌≡◌, inl, inr, Bool-cases}
use margin_mvp.Base.Lists.{All-of}
use margin_mvp.Base.Exec.{Exec, ok, lift, ◌>>=◌, ◌>>◌}
use margin_mvp.Base.Loops.{Keeps, bind-Keeps, lift-Keeps, for_each-Keeps}
use margin_mvp.Ingestion.Ir.{ParsedBundle}
use margin_mvp.Ingestion.Source.{RawArtifact, WorkItem, Source}
use margin_mvp.Ingestion.Checkpoint.{Checkpointer}
use margin_mvp.Resolver.Funnel.{Config, World}
use margin_mvp.Ingestion.Pipeline.{
  Run, on_source, on_world, note_skip, note_bundle, finish_item, ingest, visit, visit_all,
  run_ingest, load_bundle,
}
use margin_mvp.Ingestion.Pipeline.{Client}

module _ (C : Checkpointer) {S P : Type 0} (source : Source S P) (config : Config)
    (Q : Client → Type 0) (Fits : ParsedBundle → Type 0)
    (loads : (b : ParsedBundle) → Fits b → Keeps (λ w. Q w.client) (load_bundle config b))
    (parses : (artifact : RawArtifact P) (b : ParsedBundle)
      → source.parse artifact ≡ ok b
      → Fits b) where
  abbrev QRun : Run C S → Type 0
  QRun r = Q r.world.client

  load-Keeps :
      (b : ParsedBundle) → Fits b → Keeps QRun (on_world C source config (load_bundle config b))
  unfolding on_world
  load-Keeps b fits r h = loads b fits r.world h

  ingest-Keeps : (item : WorkItem) → Keeps QRun (ingest C source config item)
  unfolding ingest on_source note_bundle finish_item
  ingest-Keeps item =
      let load : ParsedBundle → Exec (Run C S) (Unit {0}) =
        λ b. on_world C source config (load_bundle config b) >>= finish_item C source config item in
      let parse : RawArtifact P → Exec (Run C S) (Unit {0}) =
        λ artifact. lift (source.parse artifact) >>= λ b. note_bundle C source config b >> load b in
      bind-Keeps QRun (on_source C source config (source.fetch item)) parse (λ r h. h)
        (λ artifact.
          lift-Keeps QRun (source.parse artifact) (λ b. note_bundle C source config b >> load b)
            (λ b parsed.
              bind-Keeps QRun (note_bundle C source config b) (λ _. load b) (λ r h. h)
                (λ _.
                  bind-Keeps QRun (on_world C source config (load_bundle config b))
                    (finish_item C source config item) (load-Keeps b (parses artifact b parsed))
                    (λ resolutions r h. h))))

  visit-Keeps : (item : WorkItem) → Keeps QRun (visit C source config item)
  unfolding visit note_skip
  visit-Keeps item r h = elim (Bool-cases (C.has_seen r.ledger item.source_ref item.item_id)) [
    | inl there ↦ rw there h
    | inr new ↦ rw new (ingest-Keeps item r h)
  ]

  pub run_ingest-Keeps :
      (w : World) (ledger : C.Ledger) (s : S)
      → Q w.client
      → Q (run_ingest C source config w ledger s).1.world.client
  unfolding run_ingest visit_all
  run_ingest-Keeps w ledger s h =
      for_each-Keeps QRun source.discover (visit C source config)
        (All-of _ visit-Keeps source.discover) _ h
