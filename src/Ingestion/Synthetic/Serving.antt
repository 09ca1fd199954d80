-- ===== src/Ingestion/Synthetic/Serving.antt =====
-- ingestion/connectors/synthetic.py: every item that is discovered is fetched and parsed.
use text.Mathlib.TextLemmas.{cons-append, nil-append}
use Prim.Native.Char.{Char, code}
use Prim.Native.String.{char_at}
use margin_mvp.Base.{
  ℕ, String, ◌<>◌, ◌≡◌, refl, ap, ◌∙◌, true, false, none, some, Option, List, [], ◌∷◌, ◌++◌, map,
  string_eq, pair_eq, arith, eqb, inl, inr, Bool-cases,
}
use margin_mvp.Base.Dict.{Dict, lookup, keys}
use margin_mvp.Base.Exec.{ok}
use margin_mvp.Base.Text.{split_once}
use margin_mvp.Base.Splits.{split_once-here, split_once-later}
use margin_mvp.Ingestion.Source.{RawArtifact}
use margin_mvp.Ingestion.Router.{check_versions, assert_versioned, parse}
use margin_mvp.Ingestion.Synthetic.{
  read_payload, behind, document_item, parse_prose, prose_bundle, fetch, router,
}
use margin_mvp.Ingestion.Synthetic.Stub.{get_document, RestStub, DocumentRow, Payload, document}
use margin_mvp.Ingestion.Synthetic.Items.{behind_lem, behind-colon, one-append}
use margin_mvp.Ingestion.RateLimit.Limiter.{RateLimiter}

-- what stands behind a separator that is there
split_once-there :
    (sep : ℕ) (s : String) (c : Char) (t : String)
    → code c ≡ sep
    → (left : String) × (right : String) × (split_once sep (s <> String.◌∷◌ c t)
        ≡ (left, some right))
split_once-there sep String.[] c t e =
    (_, _, ap (split_once sep) (nil-append (String.◌∷◌ c t)) ∙ split_once-here sep c t e)
split_once-there sep (String.◌∷◌ d s) c t e =
    let (left, right, split) = split_once-there sep s c t e in
    elim (Bool-cases (eqb (code d) sep)) [
      | inl same ↦ (
        _,
        _,
        ap (split_once sep) (cons-append d s (String.◌∷◌ c t))
            ∙ split_once-here sep d (s <> String.◌∷◌ c t) (ground arith),
      )
      | inr other ↦ (
        _,
        _,
        ap (split_once sep) (cons-append d s (String.◌∷◌ c t))
            ∙ split_once-later sep d (s <> String.◌∷◌ c t) left right other split,
      )
    ]

-- a table's reference has a dot, wherever it is split
pub reference_splits :
    (system table : String)
    → (left : String) × (right : String) × (behind b'.' (system <> ("." <> table))
        ≡ ok (left, right))
reference_splits system table =
    let (left, right, split) = split_once-there b'.' system (char_at "." 0) table refl in
    (
      left,
      right,
      behind_lem b'.' (system <> ("." <> table)) left right
          (ap (λ t. split_once b'.' (system <> t)) (one-append (char_at "." 0) table) ∙ split),
    )

prose_bundle-versioned :
    (source_ref at uri : String) (doc : DocumentRow)
    → assert_versioned (prose_bundle source_ref at uri doc) ≡ ok tt
unfolding assert_versioned prose_bundle check_versions string_eq
prose_bundle-versioned source_ref at uri doc = refl

abbrev artifact_of_document : String → String → DocumentRow → String → RawArtifact Payload
artifact_of_document source_ref uri doc at = record {
  item_id = "prose:" <> uri;
  source_ref = source_ref;
  artifact_type = "prose";
  payload = document doc;
  fetched_at = at;
}

parse_prose-document :
    (source_ref uri : String) (doc : DocumentRow) (at : String)
    → parse_prose source_ref (artifact_of_document source_ref uri doc at)
      ≡ ok (prose_bundle source_ref at uri doc)
unfolding parse_prose split_once
parse_prose-document source_ref uri doc at = rw (behind-colon "prose" uri refl) refl

pub parse-document :
    (source_ref uri : String) (doc : DocumentRow) (at : String)
    → parse (router source_ref) (artifact_of_document source_ref uri doc at)
      ≡ ok (prose_bundle source_ref at uri doc)
unfolding parse router lookup margin_mvp.Base.Dict.insert string_eq
parse-document source_ref uri doc at =
    rw (parse_prose-document source_ref uri doc at)
      (rw (prose_bundle-versioned source_ref at uri doc) refl)

get_document_lem :
    (api : RestStub) (uri : String) (doc : DocumentRow)
    → lookup uri api.documents ≡ some doc
    → get_document api uri ≡ ok doc
unfolding get_document
get_document_lem api uri doc there = rw (there, get_document) refl

read_payload-document :
    (api : RestStub) (source_ref uri : String) (doc : DocumentRow)
    → lookup uri api.documents ≡ some doc
    → read_payload api (document_item source_ref uri) ≡ ok (document doc)
unfolding read_payload document_item lookup string_eq
read_payload-document api source_ref uri doc there = rw (get_document_lem api uri doc there) refl

pub fetch-document :
    {L : Type 0} (api : RestStub) (limiter : RateLimiter L) (clock : L → String)
    (source_ref uri : String) (doc : DocumentRow) (l : L)
    → (limiter.acquire limiter.one l).0 ≡ ok tt
    → lookup uri api.documents ≡ some doc
    → (fetch api limiter clock source_ref (document_item source_ref uri) l).0
      ≡ ok (artifact_of_document source_ref uri doc (clock (limiter.acquire limiter.one l).1))
unfolding fetch document_item
fetch-document api limiter clock source_ref uri doc l granted there =
    rw (granted, read_payload-document api source_ref uri doc there) refl
