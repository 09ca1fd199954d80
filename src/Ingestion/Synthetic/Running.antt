-- ===== src/Ingestion/Synthetic/Running.antt =====
-- ingestion/connectors/synthetic.py: a run of the connector behind the token bucket, to its end.
use margin_mvp.Base.{
  suc, inl, inr, arith, ℕ, ◌+◌, String, ◌≤◌, ◌≡◌, refl, ◌∙◌, List, map, string_eq, pair_eq,
}
use margin_mvp.Base.Dict.Laws.{IsKey, keys_are}
use margin_mvp.Base.Lists.{All, All-append, All-map, All-mapped, length, length-append_map}
use margin_mvp.Base.Dict.{lookup, keys}
use margin_mvp.Base.Exec.{ok}
use margin_mvp.Ingestion.RateLimit.Limiter.{RateLimiter, Paced, paced_acquire, token_limiter}
use margin_mvp.Ingestion.RateLimit.Waiting.{acquire_returns}
use margin_mvp.Ingestion.RateLimit.Spending.{Steady}
use margin_mvp.Ingestion.Checkpoint.{Checkpointer, IsLawful}
use margin_mvp.Ingestion.Source.{Source, WorkItem}
use margin_mvp.Ingestion.Pipeline.Liveness.{Serves, run_ingest_returns}
use margin_mvp.Ingestion.Pipeline.Returning.{Fits}
use margin_mvp.Ingestion.Pipeline.LoadReturns.{Suggests, IsReadable}
use margin_mvp.Ingestion.Pipeline.Turns.{Seen}
use margin_mvp.Ingestion.Pipeline.{IngestReport, run_ingest}
use margin_mvp.Graph.Client.Steps.{IsSound}
use margin_mvp.Graph.Store.{nodes_by_label}
use margin_mvp.Graph.Model.{label, metric}
use margin_mvp.Ingestion.Synthetic.{
  discover, table_item, document_item, synthetic_source, rows_bundle, prose_bundle,
}
use margin_mvp.Ingestion.Synthetic.Stub.{
  RestStub, Row, DocumentRow, Payload, list_tables, list_documents,
}
use margin_mvp.Ingestion.Synthetic.Items.{parse-table, fetch-table}
use margin_mvp.Ingestion.Synthetic.Serving.{reference_splits, parse-document, fetch-document}
use margin_mvp.Ingestion.Synthetic.Pace.{fetch-state, paced_acquire-Spends}
use margin_mvp.Resolver.Funnel.{Config, World}
use margin_mvp.Base.{arith}

rows_bundle-Fits :
    (types : List String) (source_ref at system table : String) (found : List Row)
    → Fits types (rows_bundle source_ref at system table found)
unfolding rows_bundle lookup string_eq
rows_bundle-Fits types source_ref at system table found = ((refl, tt), tt)

prose_bundle-Fits :
    (types : List String) (source_ref at uri : String) (doc : DocumentRow)
    → Fits types (prose_bundle source_ref at uri doc)
unfolding prose_bundle
prose_bundle-Fits types source_ref at uri doc = (tt, tt)

-- a bucket that grants an amount sooner or later
abbrev pub InOrder : ℕ → Paced → Type 0
InOrder parts p = Steady p.bucket p.clock × (parts ≤ p.bucket.capacity)

module _ (drift : ℕ → ℕ) (wait : ℕ → ℕ → ℕ) (moves : (n : ℕ) → 1 ≤ drift n) (fuel : ℕ) where
  -- where the clock moves, with fuel for a turn more than parts are asked for
  paced_acquire-ok :
      (parts : ℕ) (p : Paced)
      → parts ≤ fuel
      → InOrder parts p
      → (paced_acquire drift wait (suc fuel) parts p).0 ≡ ok tt
  unfolding paced_acquire
  paced_acquire-ok parts p enough (steady, fits) =
      let (b, c, done) =
        acquire_returns drift wait parts moves fuel p.clock p.bucket steady.valid steady.past fits
          (omega arith) in
      rw (done, paced_acquire) refl

  paced_acquire-InOrder :
      (parts : ℕ) (p : Paced)
      → InOrder parts p
      → InOrder parts (paced_acquire drift wait (suc fuel) parts p).1
  paced_acquire-InOrder parts p (steady, fits) =
      elim (paced_acquire-Spends drift wait (suc fuel) parts p steady) [
        | inl (_, spent, left) ↦ (left, omega (arith, spent.same_capacity))
        | inr (_, _, same) ↦ rw same (steady, fits)
      ]

module _ (drift : ℕ → ℕ) (wait : ℕ → ℕ → ℕ) (moves : (n : ℕ) → 1 ≤ drift n) (fuel parts : ℕ)
    (enough : parts ≤ fuel) (api : RestStub) (clock : Paced → String) (source_ref : String)
    (C : Checkpointer) (config : Config) where
  abbrev limiter : RateLimiter Paced
  limiter = token_limiter drift wait (suc fuel) parts

  abbrev limited : Source Paced Payload
  limited = synthetic_source api limiter clock source_ref

  abbrev IsServed : List String → WorkItem → Type 0
  IsServed types item = Serves C limited config (InOrder parts) types item

  -- a fetch takes its token, and the bucket can grant another one after it
  fetch-InOrder :
      (item : WorkItem) (p : Paced) → InOrder parts p → InOrder parts (limited.fetch item p).1
  fetch-InOrder item p order =
      rw (fetch-state drift wait (suc fuel) parts api clock source_ref item p)
        (paced_acquire-InOrder drift wait moves fuel parts p order)

  table-IsServed :
      (types : List String) (table : String × String)
      → IsKey api.tables table
      → IsServed types (table_item source_ref table)
  unfolding synthetic_source
  table-IsServed types (system, table) (found, there) p order =
      let granted = paced_acquire-ok drift wait moves fuel parts p enough order in
      let (left, right, split) = reference_splits system table in
      let at = clock (paced_acquire drift wait (suc fuel) parts p).1 in
      (
        _,
        rows_bundle source_ref at left right found,
        fetch-table api limiter clock source_ref system table found p granted there,
        fetch-InOrder (table_item source_ref (system, table)) p order,
        parse-table source_ref system table left right found at split,
        rows_bundle-Fits types source_ref at left right found,
      )

  document-IsServed :
      (types : List String) (uri : String)
      → IsKey api.documents uri
      → IsServed types (document_item source_ref uri)
  unfolding synthetic_source
  document-IsServed types uri (doc, there) p order =
      let granted = paced_acquire-ok drift wait moves fuel parts p enough order in
      let at = clock (paced_acquire drift wait (suc fuel) parts p).1 in
      (
        _,
        prose_bundle source_ref at uri doc,
        fetch-document api limiter clock source_ref uri doc p granted there,
        fetch-InOrder (document_item source_ref uri) p order,
        parse-document source_ref uri doc at,
        prose_bundle-Fits types source_ref at uri doc,
      )

  discover-IsServed : (types : List String) → All (IsServed types) (discover api source_ref)
  unfolding discover list_tables list_documents
  discover-IsServed types =
      All-append (IsServed types) (map (table_item source_ref) (keys api.tables)) _
        (All-mapped (IsServed types) (table_item source_ref) (keys api.tables)
          (All-map (keys api.tables) (table-IsServed types) (keys_are api.tables)))
        (All-mapped (IsServed types) (document_item source_ref) (keys api.documents)
          (All-map (keys api.documents) (document-IsServed types) (keys_are api.documents)))

  discover_count :
      length (discover api source_ref) ≡ length (list_tables api) + length (list_documents api)
  unfolding discover list_tables list_documents
  discover_count = length-append_map (table_item source_ref) (document_item source_ref) _ _

  -- run_ingest of the synthetic source over any stub API, behind a token bucket (up to the rounding of its
  -- sums and products) that is valid, is not ahead of its clock and holds a token or more, where each
  -- reading of the clock and each sleep takes a tick at least, however long the sleeps are otherwise, and
  -- the loop of acquire may make a turn more than a token has parts, over a lawful ledger, into a sound
  -- client whose alias index can be read, with a suggester that answers: it returns, and every table and
  -- every document of the API is ingested or skipped, and in the ledger.
  pub run_synthetic_returns :
      IsLawful C
      → (w : World) (ledger : C.Ledger) (p : Paced) → Suggests config
      → IsSound w.client
      → IsReadable (nodes_by_label (label metric) w.client.store)
      → Steady p.bucket p.clock
      → parts ≤ p.bucket.capacity
      → (report : IngestReport) × ((run_ingest C limited config w ledger p).0 ≡ ok report)
        × (report.items_ingested + report.items_skipped
            ≡ length (list_tables api) + length (list_documents api))
        × All
            (λ item. Seen C limited config (run_ingest C limited config w ledger p).1.ledger item)
            (discover api source_ref)
  unfolding synthetic_source
  run_synthetic_returns lawful w ledger p suggests sound readable steady fits =
      let (report, done, count, seen) =
        run_ingest_returns C limited config lawful w ledger p (InOrder parts) suggests sound
          readable (steady, fits) (discover-IsServed w.client.pack_edge_types) in
      (report, done, count ∙ discover_count, seen)
