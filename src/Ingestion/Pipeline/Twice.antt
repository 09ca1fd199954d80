-- ===== src/Ingestion/Pipeline/Twice.antt =====
-- ingestion/pipeline.py: a bundle that is loaded twice.
use margin_mvp.Base.{
  String, ◌≡◌, refl, ap, sym, ◌∙◌, subst, List, [], ◌∷◌, ◌++◌, map, string_eq, pair_eq,
}
use margin_mvp.Base.Lists.{All, All-append, All-map}
use margin_mvp.Base.Dict.{Dict}
use margin_mvp.Base.Exec.{Exec, Result, ok, pure, ◌>>=◌, ◌>>◌}
use margin_mvp.Base.Returns.{bind_of_ok}
use margin_mvp.Value.{Props}
use margin_mvp.Graph.Model.{EdgeProvenance, label, metric}
use margin_mvp.Graph.Store.{nodes_by_label}
use margin_mvp.Graph.Client.{Client}
use margin_mvp.Graph.Client.Calls.{Call, run_all}
use margin_mvp.Graph.Client.Steps.{IsSound}
use margin_mvp.Graph.Client.Twice.{run_all_twice}
use margin_mvp.Ingestion.Ir.{ObservedColumn, ParsedBundle, iter_columns}
use margin_mvp.Ingestion.Pipeline.{
  ColumnKey, edge_provenance, owner_of, load_records, link_outcome, link_target, resolve_columns,
  load_bundle,
}
use margin_mvp.Ingestion.Pipeline.Ready.{Ready}
use margin_mvp.Ingestion.Pipeline.Returning.{Fits}
use margin_mvp.Ingestion.Pipeline.LoadReturns.{Suggests, IsReadable, resolve_answers}
use margin_mvp.Ingestion.Pipeline.Outcomes.{resolve_same}
use margin_mvp.Ingestion.Pipeline.Recorded.{Does, bind-Does, bind-Does_at, pure-Does, calls_of}
use margin_mvp.Ingestion.Pipeline.Records.{
  record_calls, link_calls, records-Does, link_outcome-Does,
}
use margin_mvp.Ingestion.Pipeline.Repeatable.{Good, records-Good, links-Good}
use margin_mvp.Resolver.Funnel.{Config, World, Resolution, on_client, resolve}
use margin_mvp.Resolver.Tiers.{client-resolve}

module _ (config : Config) (suggests : Suggests config) (subtypes types : List String)
    (ms : List Props) (readable : IsReadable ms) where
  abbrev ReadyWorld : World → Type 0
  ReadyWorld w = Ready subtypes types ms w.client

  module _ (start : World) (ready : ReadyWorld start) where
    -- the resolution of a column, at the start and ever after
    abbrev outcome : ObservedColumn → Resolution
    outcome col = (resolve_answers config suggests subtypes types ms readable col start ready).0

    abbrev linking : EdgeProvenance → Dict ColumnKey String → List ObservedColumn → List Call
    linking prov owners cols =
        calls_of (λ col. link_calls prov owners col (link_target (outcome col))) cols

    resolves :
        (col : ObservedColumn) (w : World)
        → ReadyWorld w
        → (resolve config col w).0 ≡ ok (outcome col)
    resolves col w h =
        resolve_same config suggests subtypes types ms readable col w start h ready
        ∙ (resolve_answers config suggests subtypes types ms readable col start ready).1

    abbrev DoesThere : {A : Type 0} → List Call → Exec World A → Type 0
    DoesThere calls m = Does subtypes types ms (λ (w : World). w.client) calls m

    on_client-Does :
        {A : Type 0} (calls : List Call) (m : Exec Client A)
        → Does subtypes types ms (λ c. c) calls m
        → DoesThere calls (on_client m)
    unfolding on_client
    on_client-Does calls m k w h = k w.client h

    resolve_columns-Does :
        (prov : EdgeProvenance) (owners : Dict ColumnKey String) (cols : List ObservedColumn)
        → DoesThere (linking prov owners cols) (resolve_columns config prov owners cols)
    unfolding resolve_columns pure run_all
    resolve_columns-Does prov owners [] w h = ([], refl, refl, h)
    resolve_columns-Does prov owners (col ∷ cols) w h =
        let others : Resolution → Exec World (List Resolution) =
          λ r. resolve_columns config prov owners cols >>= λ rest. pure (r ∷ rest) in
        let link : Resolution → Exec World (Unit {0}) =
          λ r. on_client (link_outcome prov owners col r) in
        let r : Resolution = outcome col in
        let same = client-resolve config col w in
        bind-Does_at subtypes types ms (λ (w : World). w.client) (linking prov owners (col ∷ cols))
          (resolve config col) (λ r. link r >> others r) w r (resolves col w h) same
          (subst (Ready subtypes types ms) (sym same) h)
          (bind-Does subtypes types ms (λ (w : World). w.client)
            (link_calls prov owners col (link_target r)) (linking prov owners cols) (link r)
            (λ _. others r)
            (on_client-Does (link_calls prov owners col (link_target r))
              (link_outcome prov owners col r)
              (link_outcome-Does subtypes types ms prov owners col r))
            (λ _.
              pure-Does subtypes types ms (λ (w : World). w.client) (linking prov owners cols)
                (resolve_columns config prov owners cols) (λ rest. r ∷ rest)
                (resolve_columns-Does prov owners cols)))

    returned_at :
        {A : Type 0} (m : Exec World A) (w : World) {a : A} → (m w).0 ≡ ok a → m w ≡ (ok a, (m w).1)
    returned_at m w done = ap (λ r. (r, (m w).1)) done

    -- the resolutions that are returned
    answers :
        (prov : EdgeProvenance) (owners : Dict ColumnKey String) (cols : List ObservedColumn)
        (w : World)
        → ReadyWorld w
        → (resolve_columns config prov owners cols w).0 ≡ ok (map outcome cols)
    unfolding resolve_columns pure
    answers prov owners [] w h = refl
    answers prov owners (col ∷ cols) w h =
        let others : Resolution → Exec World (List Resolution) =
          λ r. resolve_columns config prov owners cols >>= λ rest. pure (r ∷ rest) in
        let link : Resolution → Exec World (Unit {0}) =
          λ r. on_client (link_outcome prov owners col r) in
        let r : Resolution = outcome col in
        let resolved : World = (resolve config col w).1 in
        let (_, linked, _, ready') =
          on_client-Does (link_calls prov owners col (link_target r))
            (link_outcome prov owners col r) (link_outcome-Does subtypes types ms prov owners col r)
            resolved (subst (Ready subtypes types ms) (sym (client-resolve config col w)) h) in
        let rest = answers prov owners cols (link r resolved).1 ready' in
        ap (λ x. x.0)
          (bind_of_ok (resolve config col) (λ r. link r >> others r) w
              (returned_at (resolve config col) w (resolves col w h))
            ∙ bind_of_ok (link r) (λ _. others r) resolved (returned_at (link r) resolved linked)
            ∙ bind_of_ok (resolve_columns config prov owners cols) (λ rest. pure (r ∷ rest))
                (link r resolved).1
                (returned_at (resolve_columns config prov owners cols) (link r resolved).1 rest))

    load_bundle_answers :
        (b : ParsedBundle) (w : World)
        → Fits types b
        → ReadyWorld w
        → (load_bundle config b w).0 ≡ ok (map outcome (iter_columns b))
    unfolding load_bundle
    load_bundle_answers b w fits h =
        let prov = edge_provenance b.provenance in
        let load : Exec World (Unit {0}) = on_client (load_records prov b) in
        let (_, loaded, _, ready') =
          on_client-Does (record_calls subtypes prov b) (load_records prov b)
            (records-Does subtypes types ms prov b fits) w h in
        ap (λ x. x.0)
          (bind_of_ok load
            (λ _. resolve_columns config prov (owner_of b.entities []) (iter_columns b)) w
            (returned_at load w loaded))
        ∙ answers prov (owner_of b.entities []) (iter_columns b) (load w).1 ready'

    -- the calls of a bundle
    abbrev loading : ParsedBundle → List Call
    loading b =
        let prov = edge_provenance b.provenance in
        record_calls subtypes prov b ++ linking prov (owner_of b.entities []) (iter_columns b)

    load_bundle-Does :
        (b : ParsedBundle) → Fits types b → DoesThere (loading b) (load_bundle config b)
    unfolding load_bundle
    load_bundle-Does b fits =
        let prov = edge_provenance b.provenance in
        bind-Does subtypes types ms (λ (w : World). w.client) (record_calls subtypes prov b)
          (linking prov (owner_of b.entities []) (iter_columns b)) (on_client (load_records prov b))
          (λ _. resolve_columns config prov (owner_of b.entities []) (iter_columns b))
          (on_client-Does (record_calls subtypes prov b) (load_records prov b)
            (records-Does subtypes types ms prov b fits))
          (λ _. resolve_columns-Does prov (owner_of b.entities []) (iter_columns b))

-- load_bundle, of a sound client (labels and edge types allow-listed, edges with provenance) whose alias index
-- can be read, with a suggester that answers, for a bundle with no attribute named "_labels" and with
-- allow-listed relationship types: it returns, and loading the bundle again returns the same resolutions
-- and leaves the graph and the allow-lists as they were.
pub load_bundle_twice :
    (config : Config) (b : ParsedBundle) (w : World)
    → Suggests config
    → IsSound w.client
    → IsReadable (nodes_by_label (label metric) w.client.store)
    → Fits w.client.pack_edge_types b
    → let first : Result (List Resolution) × World = load_bundle config b w in
      (rs : List Resolution) × (first.0 ≡ ok rs)
      × ((load_bundle config b first.1).0 ≡ ok rs)
      × ((load_bundle config b first.1).1.client ≡ first.1.client)
load_bundle_twice config b w suggests sound readable fits =
    let subtypes = w.client.entity_subtypes in
    let types = w.client.pack_edge_types in
    let ms = nodes_by_label (label metric) w.client.store in
    let ready : Ready subtypes types ms w.client = (sound, refl, refl, refl) in
    let does = load_bundle-Does config suggests subtypes types ms readable w ready b fits in
    let answers = load_bundle_answers config suggests subtypes types ms readable w ready b in
    let calls = loading config suggests subtypes types ms readable w ready b in
    let (_, _, left, ready') = does w ready in
    let prov = edge_provenance b.provenance in
    let good : All Good calls =
      All-append Good (record_calls subtypes prov b) _ (records-Good subtypes prov b fits.0) (
        links-Good prov (owner_of b.entities [])
          (outcome config suggests subtypes types ms readable w ready) (iter_columns b)) in
    let (_, _, last, _) = does (load_bundle config b w).1 ready' in
    (
      map (outcome config suggests subtypes types ms readable w ready) (iter_columns b),
      answers w fits ready,
      answers (load_bundle config b w).1 fits ready',
      last
          ∙ ap (run_all calls) left
          ∙ run_all_twice calls w.client (All-map calls (λ call h. h.0) good)
              (All-map calls (λ call h. h.1) good)
          ∙ sym left,
    )
