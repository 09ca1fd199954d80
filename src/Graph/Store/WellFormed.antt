-- ===== src/Graph/Store/WellFormed.antt =====
-- graph/store.py: the predicate of a well-formed store, for any predicate `P` of a node's labels.
use margin_mvp.Base.{
  ap, String, ◌≡◌, refl, ◌∙◌, inl, inr, true, none, some, List, [], ◌∷◌, arith, contains, string_eq,
  Option-cases,
}
use margin_mvp.Base.Dict.{Dict, lookup, NodupKeys}
use margin_mvp.Base.Dict.Laws.{
  lookup-insert_self, insert-NodupKeys, insert-entries, lookup-update_of_absent,
  lookup-update_of_present,
}
use margin_mvp.Base.Exec.{Result, ok, err, attribute_error}
use margin_mvp.Value.{Atom, atom, set, Props}
use margin_mvp.Graph.Store.{
  Store, empty, union, add_labels, fresh_node, merge_base, upsert_node, upsert_edge,
}
use margin_mvp.Graph.Store.Key.{NodeKey, node_key, node_key_eq, edge_ident_eq}
use margin_mvp.Graph.Store.Merge.{
  upsert_node_lem, upsert_edge_lem, new_node, merge_base-upsert_node, written, outcome,
  contains-union,
}

module _ (P : NodeKey → List String → Type 0) where
  -- the node's labels are a set of which `P` holds
  abbrev pub Labelled : NodeKey → Props → Type 0
  Labelled k node =
      (labels : List String) × (lookup "_labels" node ≡ some (set labels)) × P k labels

  pub record Holds (s : Store) : Type 0 where
    pub nodes_once : NodupKeys s.nodes
    pub edges_once : NodupKeys s.edges
    pub labelled : (k : NodeKey) (node : Props) → lookup k s.nodes ≡ some node → Labelled k node

  pub empty-Holds : Holds empty
  unfolding lookup
  empty-Holds = record { nodes_once = tt; edges_once = tt; labelled = λ k node h. cc }

pub Holds-map :
    {P Q : NodeKey → List String → Type 0} (s : Store)
    → ((k : NodeKey) (labels : List String) → P k labels → Q k labels)
    → Holds P s
    → Holds Q s
Holds-map s f h = record {
  nodes_once = h.nodes_once;
  edges_once = h.edges_once;
  labelled = λ k node found.
      let (labels, there, p) = h.labelled k node found in (labels, there, f k labels p);
}

module _ {P : NodeKey → List String → Type 0} (base_label : String) (key_props : Dict String String)
    (set_props : Props) (extra_labels : List String) (s : Store)
    (starts : P (node_key base_label key_props) (base_label ∷ []))
    (grows : (labels : List String)
      → P (node_key base_label key_props) labels
      → P (node_key base_label key_props) (union labels extra_labels))
    (plain : lookup "_labels" set_props ≡ none) (h : Holds P s) where
  abbrev k : NodeKey
  k = node_key base_label key_props

  merge_base-Labelled : Labelled P k (merge_base base_label key_props s)
  unfolding merge_base fresh_node
  merge_base-Labelled = elim (Option-cases (lookup k s.nodes)) [
    | inl absent ↦
        (base_label ∷ [], rw (absent, merge_base) (lookup-insert_self "_labels" _ _), starts)
    | inr (node, found) ↦ rw (found, merge_base) (h.labelled k node found)
  ]

  new_node-Labelled : Labelled P k (new_node base_label key_props set_props extra_labels s)
  new_node-Labelled =
      let (labels, there, p) = merge_base-Labelled in
      (labels, lookup-update_of_absent "_labels" _ set_props plain ∙ there, p)

  -- The upsert returns, and the node that it leaves is labelled.
  written-Labelled :
      (outcome (add_labels (new_node base_label key_props set_props extra_labels s) extra_labels)
        ≡ ok tt)
      × Labelled P k (written (new_node base_label key_props set_props extra_labels s) extra_labels)
  unfolding add_labels
  written-Labelled =
      let (labels, there, p) = new_node-Labelled in
      rw (there, add_labels)
        (refl, (union labels extra_labels, lookup-insert_self _ _ _, grows labels p))

  pub upsert_node-Holds :
      ((upsert_node base_label key_props set_props extra_labels s).0 ≡ ok tt)
      × Holds P (upsert_node base_label key_props set_props extra_labels s).1
  upsert_node-Holds =
      let (returns, ok_node) = written-Labelled in
      rw upsert_node_lem (
        returns,
        record {
          nodes_once = insert-NodupKeys k _ s.nodes h.nodes_once;
          edges_once = h.edges_once;
          labelled = insert-entries (Labelled P) k _ s.nodes h.labelled ok_node;
        },
      )

module _ {P : NodeKey → List String → Type 0} where
  pub upsert_edge-Holds :
      (rel_type src_label : String) (src_key : Dict String String) (dst_label : String)
      (dst_key key_props : Dict String String) (set_props : Props) (s : Store)
      → Holds P s
      → Holds P (upsert_edge rel_type src_label src_key dst_label dst_key key_props set_props s).1
  upsert_edge-Holds rel_type src_label src_key dst_label dst_key key_props set_props s h =
      rw upsert_edge_lem (record {
        nodes_once = h.nodes_once;
        edges_once = insert-NodupKeys _ _ s.edges h.edges_once;
        labelled = h.labelled;
      })

-- The store's own invariant: the base label stands among a node's labels.
abbrev pub HasBase : NodeKey → List String → Type 0
HasBase k labels = contains labels k.label ≡ true

abbrev pub IsWellFormed : Store → Type 0
IsWellFormed = Holds HasBase

-- upsert_node, for properties that do not name "_labels", on a store that lists each key once and keeps for
-- each node a set of labels with its base label: it returns, and leaves such a store.
pub upsert_node-IsWellFormed :
    (base_label : String) (key_props : Dict String String) (set_props : Props)
    (extra_labels : List String) (s : Store)
    → lookup "_labels" set_props ≡ none
    → IsWellFormed s
    → ((upsert_node base_label key_props set_props extra_labels s).0 ≡ ok tt)
      × IsWellFormed (upsert_node base_label key_props set_props extra_labels s).1
unfolding node_key
upsert_node-IsWellFormed base_label key_props set_props extra_labels s plain h =
    upsert_node-Holds base_label key_props set_props extra_labels s (ground arith)
      (λ labels there. contains-union labels extra_labels base_label there) plain h

add_labels_of_scalar :
    (node : Props) (extra : List String) (a : Atom)
    → lookup "_labels" node ≡ some (atom a)
    → add_labels node extra ≡ err attribute_error
unfolding add_labels
add_labels_of_scalar node extra a h = rw (h, add_labels)

-- upsert_node, for properties that name each key once and "_labels" with a scalar: it raises an
-- AttributeError, and so does every upsert of that node right after it whose properties leave "_labels"
-- alone.
pub reserved_property_breaks :
    (base_label : String) (key_props : Dict String String) (set_props again : Props)
    (extra_labels more_labels : List String) (a : Atom) (s : Store)
    → NodupKeys set_props
    → lookup "_labels" set_props ≡ some (atom a)
    → lookup "_labels" again ≡ none
    → let broken : Result (Unit {0}) × Store =
        upsert_node base_label key_props set_props extra_labels s in
      (broken.0 ≡ err attribute_error)
      × ((upsert_node base_label key_props again more_labels broken.1).0 ≡ err attribute_error)
reserved_property_breaks base_label key_props set_props again extra_labels more_labels a s once
      named later =
    let n : Props = new_node base_label key_props set_props extra_labels s in
    let scalar : lookup "_labels" n ≡ some (atom a) =
      lookup-update_of_present "_labels" (atom a) _ set_props once named in
    let kept : merge_base base_label key_props
          (upsert_node base_label key_props set_props extra_labels s).1
        ≡ n =
      merge_base-upsert_node base_label key_props set_props extra_labels s
      ∙ rw (add_labels_of_scalar n extra_labels a scalar) in
    (
      ap (λ (r : Result (Unit {0}) × Store). r.0)
            (upsert_node_lem base_label key_props set_props extra_labels s)
          ∙ ap outcome (add_labels_of_scalar n extra_labels a scalar),
      ap (λ (r : Result (Unit {0}) × Store). r.0)
            (upsert_node_lem base_label key_props again more_labels _)
          ∙ ap outcome (
              add_labels_of_scalar _ more_labels a (
                lookup-update_of_absent "_labels" _ again later
                ∙ ap (lookup "_labels") kept
                ∙ scalar)),
    )
