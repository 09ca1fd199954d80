-- ===== src/Graph/Client/Twice.antt =====
-- graph/client.py: a sequence of calls of `GraphClient` that is made twice.
use margin_mvp.Base.{
  String, ◌≡◌, refl, sym, ap, ◌∙◌, inl, inr, not, ◌&&◌, Option, none, some, List, [], ◌∷◌, ◌++◌,
  ◌==◌, contains, string_eq, if◌then◌else◌, Bool-cases,
}
use margin_mvp.Base.Lists.{All, All-append}
use margin_mvp.Base.Dict.{Dict, lookup}
use margin_mvp.Base.Replay.{write_all, write_all-append}
use margin_mvp.Value.{Props}
use margin_mvp.Graph.Model.{
  CoreLabel, label, entity, metric, column, document, benchmark, party, RelType, rel_name, measures,
  applies_to, defined_in, benchmarked_against, computed_from, describes, has_role, related_to,
  EdgeProvenance,
}
use margin_mvp.Graph.Store.{Store}
use margin_mvp.Graph.Store.Script
use margin_mvp.Graph.Store.Script.{Write, node, edge, write, writes_twice}
use margin_mvp.Graph.Client
use margin_mvp.Graph.Client.{
  Client, on_store, clean, or_empty, is_unlisted, extra_labels, metric_props, column_key,
  column_props, document_props,
}
use margin_mvp.Graph.Client.Edges
use margin_mvp.Graph.Client.Edges.{provenance_props}
use margin_mvp.Graph.Client.Calls.{
  Call, init_schema, register_allowlists, upsert_entity, upsert_metric, upsert_column,
  upsert_document, upsert_benchmark, upsert_party, link_column_to_metric, link_metric_to_entity,
  link_metric_to_document, link_metric_to_benchmark, link_metric_computed_from,
  link_document_to_entity, link_party_to_entity, relate_entities, add_metric_alias, run, run_all,
  IsPlain,
}
use margin_mvp.Graph.Client.Steps.{lookup-clean_of_absent}
use margin_mvp.Graph.Client.Writes.{metric_props_plain, column_plain, document_plain}

-- a call that neither changes the allow-lists nor reads what it writes
abbrev pub IsRepeatable : Call → Type 0
IsRepeatable (register_allowlists _ _) = ⊥
IsRepeatable (add_metric_alias _ _) = ⊥
IsRepeatable _ = Unit

abbrev upsert : CoreLabel → Dict String String → Props → List String → List Write
upsert l key props extra = node (label l) key (clean props) extra ∷ []

abbrev spine :
    RelType
    → CoreLabel
    → Dict String String
    → CoreLabel
    → Dict String String
    → EdgeProvenance
    → Dict String String
    → List Write
spine t src src_key dst dst_key prov key_props =
    edge (rel_name t) (label src) src_key (label dst) dst_key key_props (provenance_props prov) ∷ []

-- the writes of a call, by the allow-lists: none where it raises
abbrev writes_of : Client → Call → List Write
writes_of c (upsert_entity uid subtype attrs) =
    if is_unlisted subtype c
    then []
    else upsert entity (("uid", uid) ∷ []) (or_empty attrs) (extra_labels subtype)
writes_of c (upsert_metric key a attrs) =
    upsert metric (("metric_key", key) ∷ []) (metric_props a attrs) []
writes_of c (upsert_column system table name dtype samples dict) =
    upsert column (column_key system table name) (column_props dtype samples dict) []
writes_of c (upsert_document uri title body as_of) =
    upsert document (("uri", uri) ∷ []) (document_props title body as_of) []
writes_of c (upsert_benchmark key attrs) =
    upsert benchmark (("benchmark_key", key) ∷ []) (or_empty attrs) []
writes_of c (upsert_party uid attrs) = upsert party (("uid", uid) ∷ []) (or_empty attrs) []
writes_of c (link_column_to_metric system table name key prov) =
    spine measures column (column_key system table name) metric (("metric_key", key) ∷ []) prov []
writes_of c (link_metric_to_entity key uid prov) =
    spine applies_to metric (("metric_key", key) ∷ []) entity (("uid", uid) ∷ []) prov []
writes_of c (link_metric_to_document key uri prov) =
    spine defined_in metric (("metric_key", key) ∷ []) document (("uri", uri) ∷ []) prov []
writes_of c (link_metric_to_benchmark key bench prov) =
    spine benchmarked_against metric (("metric_key", key) ∷ []) benchmark
      (("benchmark_key", bench) ∷ []) prov []
writes_of c (link_metric_computed_from key from prov) =
    spine computed_from metric (("metric_key", key) ∷ []) metric (("metric_key", from) ∷ []) prov []
writes_of c (link_document_to_entity uri uid prov) =
    spine describes document (("uri", uri) ∷ []) entity (("uid", uid) ∷ []) prov []
writes_of c (link_party_to_entity party_uid uid role prov) =
    spine has_role party (("uid", party_uid) ∷ []) entity (("uid", uid) ∷ []) prov
      (("role", role) ∷ [])
writes_of c (relate_entities subject object role prov type) =
    if not (type == rel_name related_to) && not (contains c.pack_edge_types type)
    then []
    else edge type (label entity) (("uid", subject) ∷ []) (label entity) (("uid", object) ∷ [])
        (("role", role) ∷ []) (provenance_props prov)
      ∷ []
writes_of c _ = []

pub run_all-append :
    (xs ys : List Call) (c : Client) → run_all (xs ++ ys) c ≡ run_all ys (run_all xs c)
unfolding run_all
run_all-append [] ys c = refl
run_all-append (x ∷ xs) ys c = run_all-append xs ys (run x c).1

unlisted_of_lists :
    (subtype : Option String) (c : Client) (s : Store)
    → is_unlisted subtype (record c { store = s }) ≡ is_unlisted subtype c
unfolding is_unlisted
unlisted_of_lists none c s = refl
unlisted_of_lists (some t) c s = refl

abbrev stored : Client → List Write → Store → Client
stored c ws s = record c { store = write_all write ws s }

run_lem :
    (call : Call) (c : Client) (s : Store)
    → IsRepeatable call
    → (run call (record c { store = s })).1 ≡ stored c (writes_of c call) s
unfolding run on_store write Client.init_schema Client.upsert_metric Client.upsert_column
    Client.upsert_document Client.upsert_benchmark Client.upsert_party Edges.link_column_to_metric
    Edges.link_metric_to_entity Edges.link_metric_to_document Edges.link_metric_to_benchmark
    Edges.link_metric_computed_from Edges.link_document_to_entity Edges.link_party_to_entity
    Client.upsert_entity Edges.relate_entities Edges.edge
run_lem init_schema c s r = refl
run_lem (register_allowlists subtypes types) c s r = absurd r
run_lem (upsert_entity uid subtype attrs) c s r = elim (Bool-cases (is_unlisted subtype c)) [
  | inl bad ↦
      let here = unlisted_of_lists subtype c s ∙ bad in
      rw bad (rw (here, Client.upsert_entity) refl)
  | inr good ↦
      let here = unlisted_of_lists subtype c s ∙ good in
      rw good (rw (here, Client.upsert_entity) refl)
]
run_lem (upsert_metric key a attrs) c s r = refl
run_lem (upsert_column system table name dtype samples dict) c s r = refl
run_lem (upsert_document uri title body as_of) c s r = refl
run_lem (upsert_benchmark key attrs) c s r = refl
run_lem (upsert_party uid attrs) c s r = refl
run_lem (link_column_to_metric system table name key prov) c s r = refl
run_lem (link_metric_to_entity key uid prov) c s r = refl
run_lem (link_metric_to_document key uri prov) c s r = refl
run_lem (link_metric_to_benchmark key bench prov) c s r = refl
run_lem (link_metric_computed_from key from prov) c s r = refl
run_lem (link_document_to_entity uri uid prov) c s r = refl
run_lem (link_party_to_entity party_uid uid role prov) c s r = refl
run_lem (relate_entities subject object role prov type) c s r =
    elim (Bool-cases (not (type == rel_name related_to) && not (contains c.pack_edge_types type))) [
      | inl bad ↦ rw bad refl
      | inr good ↦ rw good refl
    ]
run_lem (add_metric_alias key alias) c s r = absurd r

abbrev pub all_writes : Client → List Call → List Write
all_writes c [] = []
all_writes c (call ∷ calls) = writes_of c call ++ all_writes c calls

pub run_all_lem :
    (calls : List Call) (c : Client) (s : Store)
    → All IsRepeatable calls
    → run_all calls (record c { store = s }) ≡ stored c (all_writes c calls) s
unfolding run_all
run_all_lem [] c s r = refl
run_all_lem (call ∷ calls) c s (r, rs) =
    ap (run_all calls) (run_lem call c s r)
    ∙ run_all_lem calls c (write_all write (writes_of c call) s) rs
    ∙ ap (λ t. record c { store = t })
        (sym (write_all-append write (writes_of c call) (all_writes c calls) s))

provenance_plain : (prov : EdgeProvenance) → lookup "_labels" (provenance_props prov) ≡ none
unfolding provenance_props lookup string_eq
provenance_plain prov = refl

writes_of-IsPlain :
    (c : Client) (call : Call)
    → IsPlain call
    → IsRepeatable call
    → All Script.IsPlain (writes_of c call)
writes_of-IsPlain c init_schema h r = tt
writes_of-IsPlain c (register_allowlists subtypes types) h r = absurd r
writes_of-IsPlain c (upsert_entity uid subtype attrs) h r =
    elim (Bool-cases (is_unlisted subtype c)) [
      | inl bad ↦ rw bad tt
      | inr good ↦ rw good (lookup-clean_of_absent "_labels" _ h, tt)
    ]
writes_of-IsPlain c (upsert_metric key a attrs) h r =
    (lookup-clean_of_absent "_labels" _ (metric_props_plain a attrs h), tt)
writes_of-IsPlain c (upsert_column system table name dtype samples dict) h r = (
  lookup-clean_of_absent "_labels" (column_props dtype samples dict)
      (column_plain dtype samples dict),
  tt,
)
writes_of-IsPlain c (upsert_document uri title body as_of) h r = (
  lookup-clean_of_absent "_labels" (document_props title body as_of)
      (document_plain title body as_of),
  tt,
)
writes_of-IsPlain c (upsert_benchmark key attrs) h r = (lookup-clean_of_absent "_labels" _ h, tt)
writes_of-IsPlain c (upsert_party uid attrs) h r = (lookup-clean_of_absent "_labels" _ h, tt)
writes_of-IsPlain c (link_column_to_metric system table name key prov) h r =
    (provenance_plain prov, tt)
writes_of-IsPlain c (link_metric_to_entity key uid prov) h r = (provenance_plain prov, tt)
writes_of-IsPlain c (link_metric_to_document key uri prov) h r = (provenance_plain prov, tt)
writes_of-IsPlain c (link_metric_to_benchmark key bench prov) h r = (provenance_plain prov, tt)
writes_of-IsPlain c (link_metric_computed_from key from prov) h r = (provenance_plain prov, tt)
writes_of-IsPlain c (link_document_to_entity uri uid prov) h r = (provenance_plain prov, tt)
writes_of-IsPlain c (link_party_to_entity party_uid uid role prov) h r = (provenance_plain prov, tt)
writes_of-IsPlain c (relate_entities subject object role prov type) h r =
    elim (Bool-cases (not (type == rel_name related_to) && not (contains c.pack_edge_types type))) [
      | inl bad ↦ rw bad tt
      | inr good ↦ rw good (provenance_plain prov, tt)
    ]
writes_of-IsPlain c (add_metric_alias key alias) h r = absurd r

all_writes-IsPlain :
    (c : Client) (calls : List Call)
    → All IsPlain calls
    → All IsRepeatable calls
    → All Script.IsPlain (all_writes c calls)
all_writes-IsPlain c [] h r = tt
all_writes-IsPlain c (call ∷ calls) (h, hs) (r, rs) =
    All-append Script.IsPlain (writes_of c call) (all_writes c calls) (writes_of-IsPlain c call h r)
      (all_writes-IsPlain c calls hs rs)

-- GraphClient, any sequence of upserts of nodes and links, no attribute named "_labels", with no registration
-- of allow-lists and no added alias among them, each call returning or raising: made again after itself, it
-- leaves the client as it was, whatever nodes, properties and edges the calls share.
pub run_all_twice :
    (calls : List Call) (c : Client)
    → All IsPlain calls
    → All IsRepeatable calls
    → run_all calls (run_all calls c) ≡ run_all calls c
run_all_twice calls c plain repeatable =
    let ws = all_writes c calls in
    let once = run_all_lem calls c c.store repeatable in
    ap (run_all calls) once
    ∙ run_all_lem calls c (write_all write ws c.store) repeatable
    ∙ ap (λ t. record c { store = t })
        (writes_twice ws c.store (all_writes-IsPlain c calls plain repeatable))
    ∙ sym once
