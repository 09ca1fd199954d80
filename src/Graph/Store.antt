-- ===== src/Graph/Store.antt =====
-- graph/store.py: `_key` and `InMemoryGraphStore`.
-- The nodes and the edges are dicts in insertion order, as Python keeps them. A node is a dict of
-- properties, its labels among them under "_labels", so a property of that name replaces them.
pub mod Key
pub mod Identity
pub mod Changes
pub mod Edits
pub mod Script
pub mod Merge
pub mod Reading
pub mod WellFormed
pub mod Neighbors
use margin_mvp.Base.{String, Option, none, some, List, [], ◌∷◌, ◌++◌, map, ◌&&◌}
use margin_mvp.Base.{◌==◌, contains, string_eq, if◌then◌else◌}
use margin_mvp.Base.Dict
use margin_mvp.Base.Dict.{Dict, lookup, insert, update}
use margin_mvp.Base.Exec.{Exec, Result, ok, err, pure, key_error, attribute_error}
use margin_mvp.Value.{Value, set, Props, text_value}
use margin_mvp.Graph.Model.{Constraint}
use Key.{NodeKey, EdgeIdent, node_key, frozenset, node_key_eq, edge_ident_eq}

pub record Store : Type 0 where
  pub nodes : Dict NodeKey Props
  pub edges : Dict EdgeIdent Props

abbrev pub empty : Store
empty = record { nodes = []; edges = [] }

-- In memory the identity key is the constraint, so there is nothing to create.
unfoldable pub ensure_constraints : List Constraint → Exec Store (Unit {0})
ensure_constraints constraints s = (ok tt, s)

-- `{**key_props}` as properties
unfoldable pub as_props : Dict String String → Props
as_props = map (λ (k, v). (k, text_value v))

-- `labels |= extra`
unfoldable pub union : List String → List String → List String
union labels [] = labels
union labels (x ∷ extra) = union (if contains labels x then labels else labels ++ (x ∷ [])) extra

-- `node["_labels"].update(extra)`: an `AttributeError` where a property has replaced the set
unfoldable pub add_labels : Props → List String → Result Props
add_labels node extra = elim (lookup "_labels" node) [
  | none ↦ err (key_error "_labels")
  | some (set labels) ↦ ok (insert "_labels" (set (union labels extra)) node)
  | some _ ↦ err attribute_error
]

unfoldable pub fresh_node : String → Dict String String → Props
unfolding as_props
fresh_node base_label key_props = insert "_labels" (set (base_label ∷ [])) (as_props key_props)

-- the dict that the two updates of `upsert_node` change: the one that is there, or a fresh one
unfoldable pub merge_base : String → Dict String String → Store → Props
unfolding fresh_node
merge_base base_label key_props s = elim (lookup (node_key base_label key_props) s.nodes) [
  | none ↦ fresh_node base_label key_props
  | some node ↦ node
]

-- `node.update(set_props)` stays done where the labels cannot be added.
unfoldable pub upsert_node :
    String → Dict String String → Props → List String → Exec Store (Unit {0})
unfolding merge_base add_labels
upsert_node base_label key_props set_props extra_labels s =
    let k = node_key base_label key_props in
    let node = update (merge_base base_label key_props s) set_props in
    elim (add_labels node extra_labels) [
      | ok node' ↦ (ok tt, record s { nodes = insert k node' s.nodes })
      | err e ↦ (err e, record s { nodes = insert k node s.nodes })
    ]

unfoldable pub edge_ident :
    String
    → String
    → Dict String String
    → String
    → Dict String String
    → Dict String String
    → EdgeIdent
edge_ident rel_type src_label src_key dst_label dst_key key_props = record {
  rel = rel_type;
  src = node_key src_label src_key;
  dst = node_key dst_label dst_key;
  props = frozenset key_props;
}

unfoldable pub upsert_edge :
    String
    → String
    → Dict String String
    → String
    → Dict String String
    → Dict String String
    → Props
    → Exec Store (Unit {0})
unfolding edge_ident as_props
upsert_edge rel_type src_label src_key dst_label dst_key key_props set_props s =
    let ident = edge_ident rel_type src_label src_key dst_label dst_key key_props in
    let edge : Props = elim (lookup ident s.edges) [ none ↦ as_props key_props | some old ↦ old ] in
    (ok tt, record s { edges = insert ident (update edge set_props) s.edges })

unfoldable pub get_node : String → Dict String String → Store → Option Props
get_node base_label key_props s = lookup (node_key base_label key_props) s.nodes

-- the loop of `out_neighbors`; an edge whose end is no node is passed over
unfoldable pub neighbors_among :
    NodeKey → String → Dict NodeKey Props → Dict EdgeIdent Props → List (Props × Props)
neighbors_among src rel_type nodes [] = []
neighbors_among src rel_type nodes ((ident, eprops) ∷ edges) =
    let rest = neighbors_among src rel_type nodes edges in
    if ident.rel == rel_type && ident.src == src
    then elim (lookup ident.dst nodes) [ none ↦ rest | some node ↦ (node, eprops) ∷ rest ]
    else rest

unfoldable pub out_neighbors : String → Dict String String → String → Store → List (Props × Props)
unfolding neighbors_among
out_neighbors src_label src_key rel_type s =
    neighbors_among (node_key src_label src_key) rel_type s.nodes s.edges

unfoldable pub with_label : String → Dict NodeKey Props → List Props
with_label base_label [] = []
with_label base_label ((k, props) ∷ nodes) =
    let rest = with_label base_label nodes in if k.label == base_label then props ∷ rest else rest

unfoldable pub nodes_by_label : String → Store → List Props
unfolding with_label
nodes_by_label base_label s = with_label base_label s.nodes
