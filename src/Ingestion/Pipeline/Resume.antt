-- ===== src/Ingestion/Pipeline/Resume.antt =====
-- ingestion/pipeline.py: the loop of `run_ingest` and its ledger.
use margin_mvp.Base.{
  ℕ, ◌+◌, ◌≡◌, refl, ◌∙◌, ap, sym, List, [], ◌∷◌, ◌++◌, arith, string_eq, pair_eq, inl, inr, subst,
}
use margin_mvp.Base.Lists.{All, length}
use margin_mvp.Base.Exec.{Result, Error, ok, err, for_each}
use margin_mvp.Base.Result.{Result-cases}
use margin_mvp.Ingestion.Checkpoint.{Checkpointer, IsLawful}
use margin_mvp.Ingestion.Source.{WorkItem, Source}
use margin_mvp.Resolver.Funnel.{Config, World}
use margin_mvp.Ingestion.Pipeline.{Run, IngestReport, no_report, visit, visit_all, run_ingest}
use margin_mvp.Ingestion.Pipeline.Turns.{Seen, skipped, turn_ok, turn_err, visit_all-append}
use margin_mvp.Ingestion.Pipeline.Turns.{visit_keeps, visit_marks}
use margin_mvp.Base.{sym}

module _ (C : Checkpointer) {S P : Type 0} (source : Source S P) (config : Config)
    (lawful : IsLawful C) where
  visit_all_keeps :
      (items : List WorkItem) (other : WorkItem) (r : Run C S)
      → Seen C source config r.ledger other
      → Seen C source config (visit_all C source config items r).1.ledger other
  unfolding visit_all for_each
  visit_all_keeps [] other r h = h
  visit_all_keeps (item ∷ items) other r h = elim (Result-cases (visit C source config item r).0) [
    | inl (_, done) ↦
        rw (turn_ok C source config item items r done)
          (visit_all_keeps items other _ (visit_keeps C source config lawful item other r h))
    | inr (e, failed) ↦
        rw (turn_err C source config item items r e failed)
          (visit_keeps C source config lawful item other r h)
  ]

  along :
      {p q : Result (Unit {0}) × Run C S} (same : p ≡ q) (items : List WorkItem)
      → All (Seen C source config q.1.ledger) items
      → All (Seen C source config p.1.ledger) items
  along same items h = subst (λ x. All (Seen C source config x.1.ledger) items) (sym same) h

  -- After a run that returns, the ledger has every item.
  pub visit_all_marks :
      (items : List WorkItem) (r : Run C S)
      → (visit_all C source config items r).0 ≡ ok tt
      → All (Seen C source config (visit_all C source config items r).1.ledger) items
  visit_all_marks [] r h = tt
  visit_all_marks (item ∷ items) r h = elim (Result-cases (visit C source config item r).0) [
    | inl (_, done) ↦
        let step = turn_ok C source config item items r done in
        (
          rw step (visit_all_keeps items item _ (visit_marks C source config lawful item r done)),
          along step items (visit_all_marks items _ (ap (λ p. p.0) (sym step) ∙ h)),
        )
    | inr (e, failed) ↦
        let step = ap (λ p. p.0) (turn_err C source config item items r e failed) in cc
  ]

  -- the loop over `items` raises at `item`: those before it return, and the state is what it leaves
  abbrev pub StopsAt : List WorkItem → Run C S → Error → List WorkItem → WorkItem → Type 0
  StopsAt items r e done item =
      ((visit_all C source config done r).0 ≡ ok tt)
      × ((visit C source config item (visit_all C source config done r).1).0 ≡ err e)
      × ((visit_all C source config items r).1
          ≡ (visit C source config item (visit_all C source config done r).1).1)

  append_nil : (items : List WorkItem) → items ++ [] ≡ items
  append_nil [] = refl
  append_nil (item ∷ items) = ap (λ l. item ∷ l) (append_nil items)

  no_items : (r : Run C S) → visit_all C source config [] r ≡ (ok tt, r)
  unfolding visit_all for_each
  no_items r = refl

  all_skipped :
      (items : List WorkItem) (r again : Run C S)
      → (visit_all C source config items r).0 ≡ ok tt
      → again.ledger ≡ (visit_all C source config items r).1.ledger
      → visit_all C source config items again
        ≡ (ok tt, skipped C source config (length items) again)
  all_skipped items r again h same =
      let seen = visit_all_marks items r h in
      ap (λ l. visit_all C source config l again) (sym (append_nil items))
      ∙ visit_all-append C source config items [] again
          (subst (λ l. All (Seen C source config l) items) (sym same) seen)
      ∙ no_items (skipped C source config (length items) again)

  abbrev start : World → C.Ledger → S → Run C S
  start w l s = record { world = w; ledger = l; source = s; report = no_report }

  ran :
      (w : World) (l : C.Ledger) (s : S)
      → (run_ingest C source config w l s).1
        ≡ (visit_all C source config source.discover (start w l s)).1
  unfolding run_ingest
  ran w l s = refl

  returned :
      (w : World) (l : C.Ledger) (s : S) (report : IngestReport)
      → (run_ingest C source config w l s).0 ≡ ok report
      → (visit_all C source config source.discover (start w l s)).0 ≡ ok tt
  unfolding run_ingest
  returned w l s report h = ground arith

  finished :
      (w : World) (l : C.Ledger) (s : S) (r : Run C S)
      → visit_all C source config source.discover (start w l s) ≡ (ok tt, r)
      → run_ingest C source config w l s ≡ (ok r.report, r)
  unfolding run_ingest
  finished w l s r h =
      let f : Result (Unit {0}) × Run C S → Result IngestReport × Run C S =
        λ x. (elim x.0 [ ok _ ↦ ok x.1.report | err e ↦ err e ], x.1) in
      ap f h

  -- what a run that skips everything leaves
  abbrev idle : World → C.Ledger → S → Run C S
  idle w l s = skipped C source config (length source.discover) (start w l s)

  skip_count :
      (w : World) (l : C.Ledger) (s : S)
      → idle w l s ≡ record (start w l s) {
        report = record no_report { items_skipped = length source.discover };
      }
  skip_count w l s =
      let f : ℕ → Run C S =
        λ k. record (start w l s) { report = record no_report { items_skipped = k } } in
      let same : length source.discover + 0 ≡ length source.discover = omega arith in ap f same

  -- run_ingest, over a lawful ledger, when it returns: a second run with the ledger that it leaves, in whatever
  -- graph and source state, skips every item, ingests none, and leaves graph, queue, ledger and source as they
  -- were.
  pub run_ingest_twice :
      (w w' : World) (l : C.Ledger) (s s' : S) (report : IngestReport)
      → (run_ingest C source config w l s).0 ≡ ok report
      → run_ingest C source config w' (run_ingest C source config w l s).1.ledger s' ≡ (
        ok (record no_report { items_skipped = length source.discover }),
        record {
          world = w';
          ledger = (run_ingest C source config w l s).1.ledger;
          source = s';
          report = record no_report { items_skipped = length source.discover };
        },
      )
  run_ingest_twice w w' l s s' report h =
      let left = (run_ingest C source config w l s).1.ledger in
      finished w' left s' _ (
        all_skipped source.discover (start w l s) (start w' left s') (returned w l s report h)
          (ap (λ x. x.ledger) (ran w l s))
        ∙ ap (λ x. (ok tt, x)) (skip_count w' left s'))
