-- ===== src/Graph/Client/Presence.antt =====
-- graph/client.py: the nodes that are there before and after a writing call.
use margin_mvp.Base.{
  String, ◌≢◌, inl, inr, not, ◌&&◌, none, Option, List, [], ◌∷◌, arith, ◌==◌, contains, string_eq,
  Bool-cases,
}
use margin_mvp.Base.Dict.{Dict}
use margin_mvp.Base.Loops.{Keeps}
use margin_mvp.Base.Result.{Result-cases}
use margin_mvp.Value.{Props}
use margin_mvp.Graph.Model.{EdgeProvenance, CoreLabel, label, rel_name, related_to, metric}
use margin_mvp.Graph.Store.{upsert_node, get_node}
use margin_mvp.Graph.Store.Key.{node_key_eq}
use margin_mvp.Graph.Store.Merge.{get_node-upsert_node, upsert_edge_lem}
use margin_mvp.Graph.Client
use margin_mvp.Graph.Client.{Client, on_store, is_unlisted}
use margin_mvp.Graph.Client.Edges
use margin_mvp.Graph.Client.Edges.{edge}
use margin_mvp.Graph.Client.Aliases
use margin_mvp.Graph.Client.Aliases.{current_aliases}
use margin_mvp.Graph.Client.Calls
use margin_mvp.Graph.Client.Calls.{Call, run, run_all}

abbrev pub Present : String → Dict String String → Client → Type 0
Present l key c = get_node l key c.store ≢ none

-- the upserted node is there
pub upsert_node-Present :
    (base_label : String) (key_props : Dict String String) (props : Props) (extra : List String)
    (c : Client)
    → Present base_label key_props (on_store (upsert_node base_label key_props props extra) c).1
unfolding on_store
upsert_node-Present base_label key_props props extra c =
    rw (get_node-upsert_node base_label key_props props extra c.store base_label key_props)
      (ground arith)

module _ (l : String) (key : Dict String String) where
  node-Present :
      (base_label : String) (key_props : Dict String String) (props : Props) (extra : List String)
      → Keeps (Present l key) (on_store (upsert_node base_label key_props props extra))
  unfolding on_store
  node-Present base_label key_props props extra c h =
      rw (get_node-upsert_node base_label key_props props extra c.store l key) (ground arith)

  edge-Present :
      (rel : String) (src_label : CoreLabel) (src_key : Dict String String) (dst_label : CoreLabel)
      (dst_key : Dict String String) (prov : EdgeProvenance) (key_props : Dict String String)
      → Keeps (Present l key) (edge rel src_label src_key dst_label dst_key prov key_props)
  unfolding edge on_store get_node
  edge-Present rel src_label src_key dst_label dst_key prov key_props c h = rw upsert_edge_lem h

  relate_entities-Present :
      (subject object role : String) (prov : EdgeProvenance) (rel_type : String)
      → Keeps (Present l key) (Edges.relate_entities subject object role prov rel_type)
  unfolding Edges.relate_entities
  relate_entities-Present subject object role prov rel_type c h =
      elim (Bool-cases
        (not (rel_type == rel_name related_to) && not (contains c.pack_edge_types rel_type))) [
          | inl bad ↦ rw bad h
          | inr good ↦ rw good (edge-Present rel_type _ _ _ _ prov _ c h)
        ]

  pub upsert_entity-Present :
      (uid : String) (subtype : Option String) (attrs : Option Props)
      → Keeps (Present l key) (Client.upsert_entity uid subtype attrs)
  unfolding Client.upsert_entity
  upsert_entity-Present uid subtype attrs c h = elim (Bool-cases (is_unlisted subtype c)) [
    | inl bad ↦ rw bad h
    | inr good ↦ rw good (node-Present _ _ _ _ c h)
  ]

  add_metric_alias-Present :
      (metric_key alias : String)
      → Keeps (Present l key) (Aliases.add_metric_alias metric_key alias)
  unfolding Aliases.add_metric_alias
  add_metric_alias-Present metric_key alias c h =
      elim (Result-cases
        (current_aliases (get_node (label metric) (("metric_key", metric_key) ∷ []) c.store))) [
          | inl (current, e) ↦ rw (e, Aliases.add_metric_alias) (node-Present _ _ _ _ c h)
          | inr (e, p) ↦ rw (p, Aliases.add_metric_alias) h
        ]

  pub run-Present : (call : Call) → Keeps (Present l key) (run call)
  unfolding run Client.init_schema Client.upsert_metric Client.upsert_column Client.upsert_document
      Client.upsert_benchmark Client.upsert_party Client.register_allowlists
      Edges.link_column_to_metric Edges.link_metric_to_entity Edges.link_metric_to_document
      Edges.link_metric_to_benchmark Edges.link_metric_computed_from Edges.link_document_to_entity
      Edges.link_party_to_entity
  run-Present Calls.init_schema = λ c h. h
  run-Present (Calls.register_allowlists _ _) = λ c h. h
  run-Present (Calls.upsert_entity uid subtype attrs) = upsert_entity-Present uid subtype attrs
  run-Present (Calls.upsert_metric _ _ _) = node-Present _ _ _ _
  run-Present (Calls.upsert_column _ _ _ _ _ _) = node-Present _ _ _ _
  run-Present (Calls.upsert_document _ _ _ _) = node-Present _ _ _ _
  run-Present (Calls.upsert_benchmark _ _) = node-Present _ _ _ _
  run-Present (Calls.upsert_party _ _) = node-Present _ _ _ _
  run-Present (Calls.link_column_to_metric _ _ _ _ _) = edge-Present _ _ _ _ _ _ _
  run-Present (Calls.link_metric_to_entity _ _ _) = edge-Present _ _ _ _ _ _ _
  run-Present (Calls.link_metric_to_document _ _ _) = edge-Present _ _ _ _ _ _ _
  run-Present (Calls.link_metric_to_benchmark _ _ _) = edge-Present _ _ _ _ _ _ _
  run-Present (Calls.link_metric_computed_from _ _ _) = edge-Present _ _ _ _ _ _ _
  run-Present (Calls.link_document_to_entity _ _ _) = edge-Present _ _ _ _ _ _ _
  run-Present (Calls.link_party_to_entity _ _ _ _) = edge-Present _ _ _ _ _ _ _
  run-Present (Calls.relate_entities subject object role prov rel_type) =
      relate_entities-Present subject object role prov rel_type
  run-Present (Calls.add_metric_alias metric_key alias) = add_metric_alias-Present metric_key alias

-- GraphClient, over any sequence of writing calls, failing ones included: every node that was there
-- before is there after it.
pub run_all-Present :
    (l : String) (key : Dict String String) (calls : List Call) (c : Client)
    → Present l key c
    → Present l key (run_all calls c)
unfolding run_all
run_all-Present l key [] c h = h
run_all-Present l key (call ∷ calls) c h =
    run_all-Present l key calls (run call c).1 (run-Present l key call c h)
