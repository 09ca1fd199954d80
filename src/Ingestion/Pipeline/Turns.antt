-- ===== src/Ingestion/Pipeline/Turns.antt =====
-- ingestion/pipeline.py: one turn of the loop of `run_ingest`, and a run of turns that skip.
use margin_mvp.Base.{
  inr, ℕ, suc, ◌+◌, ◌≡◌, refl, ◌∙◌, ap, true, List, [], ◌∷◌, ◌++◌, arith, string_eq, pair_eq, ◌⊎◌,
}
use margin_mvp.Base.Lists.{All, length}
use margin_mvp.Base.Exec.{Error, ok, err, for_each}
use margin_mvp.Ingestion.Checkpoint.{Checkpointer, IsLawful}
use margin_mvp.Ingestion.Source.{WorkItem, Source}
use margin_mvp.Resolver.Funnel.{Config}
use margin_mvp.Ingestion.Pipeline.{Run, note_skip, ingest, visit, visit_all}
use margin_mvp.Base.{Bool-cases, false, inl, sym}

module _ (C : Checkpointer) {S P : Type 0} (source : Source S P) (config : Config) where
  -- `ingest` marks its item if it returns, and leaves the ledger alone if it raises
  pub ingest_ledger :
      (item : WorkItem) (r : Run C S)
      → (((ingest C source config item r).0 ≡ ok tt)
          × ((ingest C source config item r).1.ledger
              ≡ C.mark_done r.ledger item.source_ref item.item_id))
        ⊎ ((e : Error) × ((ingest C source config item r).0 ≡ err e)
            × ((ingest C source config item r).1.ledger ≡ r.ledger))
  unfolding ingest
  ingest_ledger item r = ground arith

  abbrev pub Seen : C.Ledger → WorkItem → Type 0
  Seen l item = C.has_seen l item.source_ref item.item_id ≡ true

  -- the state after `n` items were skipped
  abbrev pub skipped : ℕ → Run C S → Run C S
  skipped n r = record r { report = record r.report { items_skipped = n + r.report.items_skipped } }

  pub visit-Seen :
      (item : WorkItem) (r : Run C S)
      → Seen r.ledger item
      → visit C source config item r ≡ (ok tt, skipped 1 r)
  unfolding visit note_skip
  visit-Seen item r h = rw h (ground arith)

  pub turn_ok :
      (item : WorkItem) (items : List WorkItem) (r : Run C S)
      → (visit C source config item r).0 ≡ ok tt
      → visit_all C source config (item ∷ items) r
        ≡ visit_all C source config items (visit C source config item r).1
  unfolding visit_all for_each
  turn_ok item items r h = rw h refl

  pub turn_err :
      (item : WorkItem) (items : List WorkItem) (r : Run C S) (e : Error)
      → (visit C source config item r).0 ≡ err e
      → visit_all C source config (item ∷ items) r ≡ (err e, (visit C source config item r).1)
  unfolding visit_all for_each
  turn_err item items r e h = rw h refl

  pub skipped_more : (n : ℕ) (r : Run C S) → skipped n (skipped 1 r) ≡ skipped (suc n) r
  skipped_more n r =
      let f : ℕ → Run C S = λ k. record r { report = record r.report { items_skipped = k } } in
      let same : n + (1 + r.report.items_skipped) ≡ suc n + r.report.items_skipped = omega arith in
      ap f same

  pub skipped_none : (r : Run C S) → r ≡ skipped 0 r
  skipped_none r =
      let f : ℕ → Run C S = λ k. record r { report = record r.report { items_skipped = k } } in
      let same : r.report.items_skipped ≡ 0 + r.report.items_skipped = omega arith in ap f same

  -- Items that the ledger has are skipped: nothing is fetched, loaded or marked.
  pub visit_all-append :
      (items rest : List WorkItem) (r : Run C S)
      → All (Seen r.ledger) items
      → visit_all C source config (items ++ rest) r
        ≡ visit_all C source config rest (skipped (length items) r)
  visit_all-append [] rest r h = ap (visit_all C source config rest) (skipped_none r)
  visit_all-append (item ∷ items) rest r (there, h) =
      let step = visit-Seen item r there in
      turn_ok item (items ++ rest) r (ap (λ p. p.0) step)
      ∙ ap (λ p. visit_all C source config (items ++ rest) p.1) step
      ∙ visit_all-append items rest (skipped 1 r) h
      ∙ ap (visit_all C source config rest) (skipped_more (length items) r)

  module _ (lawful : IsLawful C) where
    pub mark_keeps :
        (l : C.Ledger) (item other : WorkItem)
        → Seen l other
        → Seen (C.mark_done l item.source_ref item.item_id) other
    mark_keeps l item other h = rw (lawful.seen-mark) (ground arith)

    pub mark_self :
        (l : C.Ledger) (item : WorkItem) → Seen (C.mark_done l item.source_ref item.item_id) item
    mark_self l item = rw (lawful.seen-mark) (ground arith)

    pub ingest_keeps :
        (item other : WorkItem) (r : Run C S)
        → Seen r.ledger other
        → Seen (ingest C source config item r).1.ledger other
    ingest_keeps item other r h = elim (ingest_ledger item r) [
      | inl (_, marked) ↦ rw marked (mark_keeps r.ledger item other h)
      | inr (_, _, same) ↦ rw same h
    ]

    pub visit_keeps :
        (item other : WorkItem) (r : Run C S)
        → Seen r.ledger other
        → Seen (visit C source config item r).1.ledger other
    unfolding visit note_skip
    visit_keeps item other r h = ground (arith, ingest_keeps item other r h)

    pub visit_unseen :
        (item : WorkItem) (r : Run C S)
        → C.has_seen r.ledger item.source_ref item.item_id ≡ false
        → visit C source config item r ≡ ingest C source config item r
    unfolding visit
    visit_unseen item r h = rw h refl

    pub ingest_marks :
        (item : WorkItem) (r : Run C S)
        → (ingest C source config item r).0 ≡ ok tt
        → Seen (ingest C source config item r).1.ledger item
    ingest_marks item r h = elim (ingest_ledger item r) [
      | inl (_, marked) ↦ rw marked (mark_self r.ledger item)
      | inr (e, failed, _) ↦ cc
    ]

    pub visit_marks :
        (item : WorkItem) (r : Run C S)
        → (visit C source config item r).0 ≡ ok tt
        → Seen (visit C source config item r).1.ledger item
    visit_marks item r h = elim (Bool-cases (C.has_seen r.ledger item.source_ref item.item_id)) [
      | inl there ↦ rw (visit-Seen item r there) there
      | inr new ↦
          let same = visit_unseen item r new in
          rw same (ingest_marks item r (ap (λ p. p.0) (sym same) ∙ h))
    ]
