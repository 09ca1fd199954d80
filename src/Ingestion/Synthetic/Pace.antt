-- ===== src/Ingestion/Synthetic/Pace.antt =====
-- ingestion/connectors/synthetic.py: the connector behind the token bucket, in a run of ingestion/pipeline.py.
use margin_mvp.Base.{
  ◌⊎◌, ltb, ℕ, suc, ◌+◌, ◌-◌, ◌*◌, ◌≤◌, ◌≡◌, refl, String, arith, inl, inr, Bool-cases,
}
use margin_mvp.Base.Exec.{Error, Result, ok, err, value_error, external_error}
use margin_mvp.Base.Lists.{All-of}
use margin_mvp.Base.Loops.{Keeps, for_each-Keeps}
use margin_mvp.Ingestion.Source.{WorkItem, Source}
use margin_mvp.Ingestion.Checkpoint.{Checkpointer}
use margin_mvp.Ingestion.RateLimit.{
  TokenBucket, Clock, Acquired, acquired, too_many, out_of_fuel, acquire,
}
use margin_mvp.Ingestion.RateLimit.Turns.{mul_mono}
use margin_mvp.Ingestion.RateLimit.Limiter.{Paced, paced_acquire, token_limiter}
use margin_mvp.Ingestion.RateLimit.Spending.{
  Spent, Spent-none, Spent-then, Spent-less, Spent-bound, Steady, Leaves, acquire_loop-Leaves,
}
use margin_mvp.Ingestion.Pipeline.{Run, no_report, ingest, visit, visit_all, run_ingest}
use margin_mvp.Ingestion.Synthetic.{fetch, synthetic_source}
use margin_mvp.Ingestion.Synthetic.Stub.{RestStub, Payload}
use margin_mvp.Resolver.Funnel.{Config, World}

module _ (C : Checkpointer) {S P : Type 0} (source : Source S P) (config : Config) where
  -- an item is fetched once, and counted once at most
  pub ingest_once :
      (item : WorkItem) (r : Run C S)
      → ((ingest C source config item r).1.source ≡ (source.fetch item r.source).1)
        × ((ingest C source config item r).1.report.items_ingested ≤ suc r.report.items_ingested)
  unfolding ingest
  ingest_once item r = ground arith

  -- an item that is not fetched is not counted
  unfetched :
      (item : WorkItem) (r : Run C S) (e : Error)
      → (source.fetch item r.source).0 ≡ err e
      → (ingest C source config item r).1.report.items_ingested ≡ r.report.items_ingested
  unfolding ingest
  unfetched item r e h = ground arith

-- a call that returns has spent its amount, and one that raises has changed nothing
abbrev pub Spends : ℕ → Paced → Result (Unit {0}) × Paced → Type 0
Spends tokens p (reply, q) =
    ((reply ≡ ok tt) × Spent tokens p.bucket q.bucket × Steady q.bucket q.clock)
    ⊎ ((e : Error) × (reply ≡ err e) × (q ≡ p))

module _ (drift : ℕ → ℕ) (wait : ℕ → ℕ → ℕ) (fuel : ℕ) where
  acquire-Leaves :
      (tokens : ℕ) (p : Paced)
      → Steady p.bucket p.clock
      → Leaves tokens p.bucket (acquire drift wait fuel tokens p.clock p.bucket)
  unfolding acquire
  acquire-Leaves tokens p steady = elim (Bool-cases (ltb p.bucket.capacity tokens)) [
    | inl over ↦ rw (over, acquire) tt
    | inr fits ↦
        rw (fits, acquire) (acquire_loop-Leaves drift wait fuel tokens p.clock p.bucket steady)
  ]

  reply_to : Acquired → Paced → Result (Unit {0}) × Paced
  reply_to end p = elim end [
    | acquired b c ↦ (ok tt, record { bucket = b; clock = c })
    | too_many ↦ (err (value_error "cannot acquire"), p)
    | out_of_fuel ↦ (err (external_error "out of fuel"), p)
  ]

  reply_to-Spends :
      (tokens : ℕ) (p : Paced) (end : Acquired)
      → Leaves tokens p.bucket end
      → Spends tokens p (reply_to end p)
  unfolding reply_to
  reply_to-Spends tokens p (acquired b c) (spent, left) = inl (refl, spent, left)
  reply_to-Spends tokens p too_many h = inr (_, refl, refl)
  reply_to-Spends tokens p out_of_fuel h = inr (_, refl, refl)

  pub paced_acquire-Spends :
      (tokens : ℕ) (p : Paced)
      → Steady p.bucket p.clock
      → Spends tokens p (paced_acquire drift wait fuel tokens p)
  unfolding paced_acquire reply_to
  paced_acquire-Spends tokens p steady =
      reply_to-Spends tokens p (acquire drift wait fuel tokens p.clock p.bucket)
        (acquire-Leaves tokens p steady)

  module _ (parts : ℕ) (api : RestStub) (clock : Paced → String) (source_ref : String) where
    abbrev limited : Source Paced Payload
    limited = synthetic_source api (token_limiter drift wait fuel parts) clock source_ref

    -- whatever the answer of the source is, one token is taken
    pub fetch-state :
        (item : WorkItem) (p : Paced)
        → (limited.fetch item p).1 ≡ (paced_acquire drift wait fuel parts p).1
    unfolding synthetic_source fetch
    fetch-state item p = ground arith

    fetch-err :
        (item : WorkItem) (p : Paced) (e : Error)
        → (paced_acquire drift wait fuel parts p).0 ≡ err e
        → (limited.fetch item p).0 ≡ err e
    unfolding synthetic_source fetch
    fetch-err item p e h = rw h refl

    module _ (C : Checkpointer) (config : Config) (start : TokenBucket) where
      -- the tokens of the items counted so far are spent
      abbrev Paid : Run C Paced → Type 0
      Paid r =
          Spent (r.report.items_ingested * parts) start r.source.bucket
          × Steady r.source.bucket r.source.clock

      ingest-Paid : (item : WorkItem) → Keeps Paid (ingest C limited config item)
      ingest-Paid item r (spent, steady) =
          let (source, count) = ingest_once C limited config item r in
          elim (paced_acquire-Spends parts r.source steady) [
            | inl (_, one, left) ↦
                let cost = mul_mono _ (suc r.report.items_ingested) parts count in
                rw (source, fetch-state item r.source)
                  (Spent-less (omega (arith, cost)) (Spent-then spent one), left)
            | inr (e, refused, same) ↦
                rw
                  (
                    source,
                    fetch-state item r.source,
                    same,
                    unfetched C limited config item r e (fetch-err item r.source e refused),
                  )
                  (spent, steady)
          ]

      visit-Paid : (item : WorkItem) → Keeps Paid (visit C limited config item)
      unfolding visit
      visit-Paid item r h = elim (Bool-cases (C.has_seen r.ledger item.source_ref item.item_id)) [
        | inl there ↦ rw there h
        | inr new ↦ rw new (ingest-Paid item r h)
      ]

      -- run_ingest of the synthetic source behind a token bucket that is valid and not ahead of its clock, however
      -- long its sleeps are and however many turns its loop may make, whether the run returns or raises: the
      -- items that it ingests cost one token each, and no more than the capacity and what the rate brings
      -- until the end of the run pays for them; the bucket is again valid and not ahead of its clock.
      pub run_ingest-Paced :
          (w : World) (ledger : C.Ledger) (time : Clock)
          → Steady start time
          → let end =
              (run_ingest C limited config w ledger (record { bucket = start; clock = time })).1 in
            (end.report.items_ingested * parts
              ≤ start.capacity + (end.source.clock.time - start.last) * start.rate)
            × Steady end.source.bucket end.source.clock
      unfolding run_ingest visit_all
      run_ingest-Paced w ledger time steady =
          let begin : Run C Paced = record {
            world = w;
            ledger = ledger;
            source = record { bucket = start; clock = time };
            report = no_report;
          } in
          let none_spent : 0 * parts ≤ 0 = omega arith in
          let (spent, left) =
            for_each-Keeps Paid limited.discover (visit C limited config)
              (All-of _ visit-Paid limited.discover) begin
              (Spent-less none_spent (Spent-none start), steady) in
          (Spent-bound steady.valid spent left, left)
