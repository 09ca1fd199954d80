-- ===== src/Ingestion/Pipeline/Liveness.antt =====
-- ingestion/pipeline.py: when `run_ingest` returns.
use margin_mvp.Base.{
  ℕ, suc, ◌+◌, String, ◌≡◌, refl, ap, inl, inr, List, [], ◌∷◌, arith, string_eq, pair_eq,
  Bool-cases,
}
use margin_mvp.Base.Lists.{All, length}
use margin_mvp.Base.Exec.{Exec, Result, ok, err, lift, ◌>>=◌, ◌>>◌, for_each}
use margin_mvp.Base.Returns.{Returns, bind-Returns, bind-Returns_at, lift-Returns}
use margin_mvp.Value.{Props}
use margin_mvp.Graph.Model.{label, metric}
use margin_mvp.Graph.Store.{nodes_by_label}
use margin_mvp.Graph.Client.Steps.{IsSound}
use margin_mvp.Ingestion.Ir.{ParsedBundle}
use margin_mvp.Ingestion.Source.{WorkItem, RawArtifact, Source}
use margin_mvp.Ingestion.Checkpoint.{Checkpointer, IsLawful}
use margin_mvp.Ingestion.Pipeline.{
  load_bundle, Run, IngestReport, no_report, on_source, on_world, note_bundle, note_skip,
  finish_item, ingest, visit, visit_all, run_ingest,
}
use margin_mvp.Ingestion.Pipeline.Ready.{Ready}
use margin_mvp.Ingestion.Pipeline.LoadReturns.{Suggests, IsReadable, load_bundle-Returns}
use margin_mvp.Ingestion.Pipeline.Returning.{Fits}
use margin_mvp.Ingestion.Pipeline.Turns.{Seen, turn_ok}
use margin_mvp.Ingestion.Pipeline.Resume.{visit_all_marks}
use margin_mvp.Resolver.Funnel.{Config, World}

module _ (C : Checkpointer) {S P : Type 0} (source : Source S P) (config : Config) where
  -- from a source in order, which stays so, the item's artifact is fetched, and parsed to a bundle that a
  -- client with these edge types takes
  abbrev pub Serves : (S → Type 0) → List String → WorkItem → Type 0
  Serves InOrder types item =
      (s : S)
      → InOrder s
      → (artifact : RawArtifact P) × (b : ParsedBundle) × ((source.fetch item s).0 ≡ ok artifact)
        × InOrder (source.fetch item s).1
        × (source.parse artifact ≡ ok b)
        × Fits types b

  -- the items that a report counts
  abbrev counted : Run C S → ℕ
  counted r = r.report.items_ingested + r.report.items_skipped

  ingest_counts :
      (item : WorkItem) (r : Run C S)
      → (ingest C source config item r).0 ≡ ok tt
      → counted (ingest C source config item r).1 ≡ suc (counted r)
  unfolding ingest
  ingest_counts item r h = ground arith

  visit_counts :
      (item : WorkItem) (r : Run C S)
      → (visit C source config item r).0 ≡ ok tt
      → counted (visit C source config item r).1 ≡ suc (counted r)
  unfolding visit note_skip
  visit_counts item r h = ground (arith, ingest_counts item r)

  module _ (suggests : Suggests config) (subtypes types : List String) (ms : List Props)
      (readable : IsReadable ms) (InOrder : S → Type 0) where
    abbrev ReadyRun : Run C S → Type 0
    ReadyRun r = Ready subtypes types ms r.world.client × InOrder r.source

    load-Returns :
        (b : ParsedBundle)
        → Fits types b
        → Returns ReadyRun (on_world C source config (load_bundle config b))
    unfolding on_world
    load-Returns b fits r (h, order) =
        let (rs, done, ready) =
          load_bundle-Returns config suggests subtypes types ms readable b fits r.world h in
        (rs, done, (ready, order))

    ingest-Returns :
        (item : WorkItem)
        → Serves InOrder types item
        → Returns ReadyRun (ingest C source config item)
    unfolding ingest on_source note_bundle finish_item
    ingest-Returns item serves r (h, order) =
        let (artifact, b, fetched, kept, parsed, fits) = serves r.source order in
        let load : ParsedBundle → Exec (Run C S) (Unit {0}) = λ b.
          on_world C source config (load_bundle config b) >>= finish_item C source config item in
        let parse : RawArtifact P → Exec (Run C S) (Unit {0}) =
          λ a. lift (source.parse a) >>= λ b. note_bundle C source config b >> load b in
        bind-Returns_at ReadyRun (on_source C source config (source.fetch item)) parse r artifact
          fetched (h, kept)
          (lift-Returns ReadyRun (source.parse artifact)
            (λ b. note_bundle C source config b >> load b) b parsed
            (bind-Returns ReadyRun (note_bundle C source config b) (λ _. load b)
              (λ r h. (tt, refl, h))
              (λ _.
                bind-Returns ReadyRun (on_world C source config (load_bundle config b))
                  (finish_item C source config item) (load-Returns b fits)
                  (λ resolutions r h. (tt, refl, h)))))

    visit-Returns :
        (item : WorkItem)
        → Serves InOrder types item
        → Returns ReadyRun (visit C source config item)
    unfolding visit note_skip
    visit-Returns item serves r h =
        elim (Bool-cases (C.has_seen r.ledger item.source_ref item.item_id)) [
          | inl there ↦ rw there (tt, refl, h)
          | inr new ↦ rw new (ingest-Returns item serves r h)
        ]

    visit_all_returns :
        (items : List WorkItem) (r : Run C S)
        → All (Serves InOrder types) items
        → ReadyRun r
        → ((visit_all C source config items r).0 ≡ ok tt)
          × (counted (visit_all C source config items r).1 ≡ length items + counted r)
    unfolding visit_all for_each
    visit_all_returns [] r serve h = (refl, omega arith)
    visit_all_returns (item ∷ items) r (serves, serve) h =
        let (_, done, ready) = visit-Returns item serves r h in
        let (rest, count) = visit_all_returns items (visit C source config item r).1 serve ready in
        let one = visit_counts item r done in
        rw (turn_ok C source config item items r done) (rest, omega (arith, count, one))

module _ (C : Checkpointer) {S P : Type 0} (source : Source S P) (config : Config)
    (lawful : IsLawful C) where
  -- run_ingest, over a lawful ledger, of a sound client whose alias index can be read, with a suggester that
  -- answers, from a source in order, which stays so while every discovered item is fetched and parsed to
  -- a bundle that the client takes (no attribute named "_labels", relationship types allow-listed): it
  -- returns, each item is ingested or
  -- skipped, and every item is in the ledger.
  pub run_ingest_returns :
      (w : World) (ledger : C.Ledger) (s : S) (InOrder : S → Type 0)
      → Suggests config
      → IsSound w.client
      → IsReadable (nodes_by_label (label metric) w.client.store)
      → InOrder s
      → All (Serves C source config InOrder w.client.pack_edge_types) source.discover
      → (report : IngestReport) × ((run_ingest C source config w ledger s).0 ≡ ok report)
        × (report.items_ingested + report.items_skipped ≡ length source.discover)
        × All
            (Seen C source config (run_ingest C source config w ledger s).1.ledger)
            source.discover
  unfolding run_ingest
  run_ingest_returns w ledger s InOrder suggests sound readable order serve =
      let start : Run C S = record { world = w; ledger = ledger; source = s; report = no_report } in
      let (returned, count) =
        visit_all_returns C source config suggests w.client.entity_subtypes w.client.pack_edge_types
          (nodes_by_label (label metric) w.client.store) readable InOrder source.discover start
          serve ((sound, refl, refl, refl), order) in
      let seen = visit_all_marks C source config lawful source.discover start returned in
      let report = (visit_all C source config source.discover start).1.report in
      let answer : Result (Unit {0}) → Result IngestReport =
        λ x. elim x [ ok _ ↦ ok report | err e ↦ err e ] in
      (report, ap answer returned, omega (arith, count), seen)
