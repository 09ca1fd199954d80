-- ===== src/Graph/Client/Safety.antt =====
-- graph/client.py: sequences of writing calls of `GraphClient`.
use margin_mvp.Base.{subst, sym, ap, ◌≡◌, refl, inl, inr, ◌⊎◌, List, [], ◌∷◌, string_eq}
use margin_mvp.Base.Lists.{All}
use margin_mvp.Base.Exec.{Error, ok, err}
use margin_mvp.Graph.Store.WellFormed.{empty-Holds}
use margin_mvp.Base.Dict.{lookup}
use margin_mvp.Graph.Model.{
  benchmark, measures, applies_to, defined_in, benchmarked_against, computed_from, describes,
  has_role, document, party, column, entity, rel_name, measures, applies_to,
}
use margin_mvp.Graph.Client
use margin_mvp.Graph.Client.{
  Client, MetricArgs, clean, or_empty, is_unlisted, extra_labels, metric_props, init, metric,
  column, document, party, column_props, document_props,
}
use margin_mvp.Graph.Client.Edges
use margin_mvp.Graph.Client.Edges.{edge}
use margin_mvp.Graph.Client.Writes.{
  Step, upsert_entity-Step, relate_entities-Step, add_metric_alias-Step, register_allowlists-Step,
  metric_props_plain, column_plain, document_plain, spine,
}
use margin_mvp.Graph.Client.Calls.{
  Call, init_schema, register_allowlists, upsert_entity, upsert_metric, upsert_column,
  upsert_document, upsert_benchmark, upsert_party, link_column_to_metric, link_metric_to_entity,
  link_metric_to_document, link_metric_to_benchmark, link_metric_computed_from,
  link_document_to_entity, link_party_to_entity, relate_entities, add_metric_alias, run, run_all,
  IsPlain,
}
use margin_mvp.Graph.Client.Steps.{IsSound, lookup-clean_of_absent, node_step, edge_step}

run-Step : (call : Call) (c : Client) → IsPlain call → IsSound c → Step c (run call c)
unfolding run Client.init_schema Client.upsert_metric Client.upsert_column Client.upsert_document
    Client.upsert_benchmark Client.upsert_party Edges.link_column_to_metric
    Edges.link_metric_to_entity Edges.link_metric_to_document Edges.link_metric_to_benchmark
    Edges.link_metric_computed_from Edges.link_document_to_entity Edges.link_party_to_entity
run-Step init_schema c plain h = inl (refl, h)
run-Step (register_allowlists subtypes types) c plain h =
    register_allowlists-Step subtypes types c h
run-Step (upsert_entity uid subtype attrs) c plain h =
    upsert_entity-Step uid subtype attrs c plain h
run-Step (upsert_metric key a attrs) c plain h = inl (
    node_step metric _ _ [] c tt
      (lookup-clean_of_absent "_labels" _ (metric_props_plain a attrs plain)) h)
run-Step (upsert_column system table name dtype samples dict) c plain h = inl (
    node_step column _ _ [] c tt
      (lookup-clean_of_absent "_labels" (column_props dtype samples dict)
        (column_plain dtype samples dict))
      h)
run-Step (upsert_document uri title body as_of) c plain h = inl (
    node_step document _ _ [] c tt
      (lookup-clean_of_absent "_labels" (document_props title body as_of)
        (document_plain title body as_of))
      h)
run-Step (upsert_benchmark key attrs) c plain h =
    inl (node_step benchmark _ _ [] c tt (lookup-clean_of_absent "_labels" _ plain) h)
run-Step (upsert_party uid attrs) c plain h =
    inl (node_step party _ _ [] c tt (lookup-clean_of_absent "_labels" _ plain) h)
run-Step (link_column_to_metric system table name key prov) c plain h =
    inl (edge_step (rel_name measures) column _ metric _ prov [] c (spine c measures) h)
run-Step (link_metric_to_entity key uid prov) c plain h =
    inl (edge_step (rel_name applies_to) metric _ entity _ prov [] c (spine c applies_to) h)
run-Step (link_metric_to_document key uri prov) c plain h =
    inl (edge_step (rel_name defined_in) metric _ document _ prov [] c (spine c defined_in) h)
run-Step (link_metric_to_benchmark key bench prov) c plain h = inl (
    edge_step (rel_name benchmarked_against) metric _ benchmark _ prov [] c
      (spine c benchmarked_against) h)
run-Step (link_metric_computed_from key from prov) c plain h =
    inl (edge_step (rel_name computed_from) metric _ metric _ prov [] c (spine c computed_from) h)
run-Step (link_document_to_entity uri uid prov) c plain h =
    inl (edge_step (rel_name describes) document _ entity _ prov [] c (spine c describes) h)
run-Step (link_party_to_entity party_uid uid role prov) c plain h =
    inl (edge_step (rel_name has_role) party _ entity _ prov _ c (spine c has_role) h)
run-Step (relate_entities subject object role prov type) c plain h =
    relate_entities-Step subject object role prov type c h
run-Step (add_metric_alias key alias) c plain h = add_metric_alias-Step key alias c h

-- GraphClient, a writing call of a client that is sound (as such sequences of calls leave it), no attribute
-- named "_labels": the call returns, or it raises and leaves the client as it was.
pub run_atomic :
    (call : Call) (c : Client)
    → IsPlain call
    → IsSound c
    → ((run call c).0 ≡ ok tt) ⊎ ((e : Error) × (run call c ≡ (err e, c)))
run_atomic call c plain h = elim (run-Step call c plain h) [
  | inl (returned, _) ↦ inl returned
  | inr unchanged ↦ inr unchanged
]

pub run-IsSound : (call : Call) (c : Client) → IsPlain call → IsSound c → IsSound (run call c).1
run-IsSound call c plain h = elim (run-Step call c plain h) [
  | inl (_, sound) ↦ sound
  | inr (e, unchanged) ↦ subst IsSound (sym (ap (λ p. p.1) unchanged)) h
]

pub init-IsSound : IsSound init
init-IsSound = record { nodes = empty-Holds _; edges = λ ident e found. unfold lookup in cc }

run_all-IsSound :
    (calls : List Call) (c : Client) → All IsPlain calls → IsSound c → IsSound (run_all calls c)
unfolding run_all
run_all-IsSound [] c plain h = h
run_all-IsSound (call ∷ calls) c (p, plain) h =
    run_all-IsSound calls (run call c).1 plain (run-IsSound call c p h)

-- GraphClient, after any sequence of writing calls of a new client, failing ones included, no attribute named
-- "_labels": each key is listed once; each node has its base label, and other labels only if it is an Entity
-- and an allow-list holds them; each edge is of a spine type or of an allow-listed one, and has the
-- source_ref, as_of and created_by of some provenance.
pub calls-IsSound : (calls : List Call) → All IsPlain calls → IsSound (run_all calls init)
calls-IsSound calls plain = run_all-IsSound calls init plain init-IsSound
