-- ===== src/Graph/Store/Merge.antt =====
-- graph/store.py: the MERGE on the identity key, in `upsert_node` and `upsert_edge`.
use margin_mvp.Base.{
  none, Option, String, ◌≡◌, refl, inl, inr, true, some, List, [], ◌∷◌, ◌++◌, ◌||◌, ◌∙◌, ap, arith,
  ◌==◌, contains, string_eq, if◌then◌else◌, Option-cases,
}
use margin_mvp.Base.Lists.{All}
use margin_mvp.Base.Dict.{Dict, lookup, insert, update}
use margin_mvp.Base.Dict.Laws.{
  lookup-insert_self, insert-insert, update-update, update-insert_of_absent,
  update-insert_of_present, lookup-insert,
}
use margin_mvp.Base.Exec.{Result, ok, err}
use margin_mvp.Base.Result.{Result-cases}
use margin_mvp.Value.{set, Props}
use margin_mvp.Graph.Store.{
  Store, union, add_labels, merge_base, upsert_node, as_props, get_node, upsert_edge, edge_ident,
}
use margin_mvp.Graph.Store.Key.{NodeKey, EdgeIdent, node_key, node_key_eq, edge_ident_eq}

pub contains-append :
    (xs : List String) (y x : String) → contains (xs ++ y ∷ []) x ≡ (contains xs x || x == y)
contains-append [] y x = ground arith
contains-append (z ∷ xs) y x = ground (arith, contains-append xs y x)

pub contains-union :
    (labels extra : List String) (x : String)
    → contains labels x ≡ true
    → contains (union labels extra) x ≡ true
unfolding union
contains-union labels [] x h = h
contains-union labels (y ∷ extra) x h =
    contains-union (if contains labels y then labels else labels ++ y ∷ []) extra x
      (ground (arith, contains-append labels y x))

abbrev pub AllIn : List String → List String → Type 0
AllIn extra labels = All (λ x. contains labels x ≡ true) extra

pub union_of_AllIn : (labels extra : List String) → AllIn extra labels → union labels extra ≡ labels
unfolding union
union_of_AllIn labels [] h = refl
union_of_AllIn labels (x ∷ extra) (there, rest) = rw there (union_of_AllIn labels extra rest)

pub union-AllIn : (labels extra : List String) → AllIn extra (union labels extra)
unfolding union
union-AllIn labels [] = tt
union-AllIn labels (x ∷ extra) =
    let next : List String = if contains labels x then labels else labels ++ x ∷ [] in
    (
      contains-union next extra x (ground (arith, contains-append labels x x)),
      union-AllIn next extra,
    )

pub union-union :
    (labels extra : List String) → union (union labels extra) extra ≡ union labels extra
union-union labels extra = union_of_AllIn (union labels extra) extra (union-AllIn labels extra)

-- the dict that `upsert_node` leaves behind, also where it raises
abbrev pub or_props : Option Props → Props → Props
or_props none base = base
or_props (some old) base = old

abbrev pub settled : Props → Result Props → Props
settled node (ok node') = node'
settled node (err e) = node

abbrev pub written : Props → List String → Props
written node extra = settled node (add_labels node extra)

abbrev pub outcome : Result Props → Result (Unit {0})
outcome (ok node') = ok tt
outcome (err e) = err e

pub add_labels-eq-ok :
    (node : Props) (extra : List String) {node' : Props}
    → add_labels node extra ≡ ok node'
    → (labels : List String) × (lookup "_labels" node ≡ some (set labels))
      × (node' ≡ insert "_labels" (set (union labels extra)) node)
unfolding add_labels
add_labels-eq-ok node extra h = ground arith

-- a labelled node takes its labels again without a change
add_labels_again :
    (node : Props) (labels extra : List String)
    → let node' : Props = insert "_labels" (set (union labels extra)) node in
      add_labels node' extra ≡ ok node'
unfolding add_labels
add_labels_again node labels extra =
    rw (lookup-insert_self, add_labels) (rw (union-union labels extra, insert-insert))

-- what the second of two equal writes finds
abbrev Repeats : Props → Props → List String → Type 0
Repeats again node extra =
    (outcome (add_labels again extra) ≡ outcome (add_labels node extra))
    × (written again extra ≡ written node extra)

module _ (base set_props : Props) (extra : List String) where
  abbrev node : Props
  node = update base set_props

  update-written_relabelled :
      (labels : List String)
      → add_labels node extra ≡ ok (insert "_labels" (set (union labels extra)) node)
      → lookup "_labels" node ≡ some (set labels)
      → Repeats (update (insert "_labels" (set (union labels extra)) node) set_props) node extra
  update-written_relabelled labels h there = elim (Option-cases (lookup "_labels" set_props)) [
    | inl absent ↦
        rw
          (
            update-insert_of_absent "_labels" (set (union labels extra)) node set_props
                (rw there (λ n. cc)) absent,
            update-update base set_props,
            add_labels_again node labels extra,
            h,
          )
          (refl, refl)
    | inr (v, found) ↦
        rw
          (
            update-insert_of_present "_labels" (set (union labels extra)) node set_props
                (rw there (λ n. cc)) (rw found (λ n. cc)),
            update-update base set_props,
          )
          (refl, refl)
  ]

  update-written : Repeats (update (written node extra) set_props) node extra
  update-written = elim (Result-cases (add_labels node extra)) [
    | inl (node', h) ↦
        let (labels, there, e) = add_labels-eq-ok node extra h in
        let h' : add_labels node extra ≡ ok (insert "_labels" (set (union labels extra)) node) =
          h ∙ ap ok e in
        rw h' (rw h' at (update-written_relabelled labels h' there))
    | inr (e, h) ↦ rw h (rw (update-update base set_props, h) (refl, refl))
  ]

module _ (base_label : String) (key_props : Dict String String) (set_props : Props)
    (extra_labels : List String) (s : Store) where
  abbrev target : NodeKey
  target = node_key base_label key_props

  abbrev pub new_node : Props
  new_node = update (merge_base base_label key_props s) set_props

  abbrev result : Result (Unit {0}) × Store
  result = upsert_node base_label key_props set_props extra_labels s

  pub upsert_node_lem : result ≡ (
    outcome (add_labels new_node extra_labels),
    record s { nodes = insert target (written new_node extra_labels) s.nodes },
  )
  unfolding upsert_node
  upsert_node_lem = ground arith

  pub edges-upsert_node : result.1.edges ≡ s.edges
  edges-upsert_node = rw upsert_node_lem

  -- a later upsert of the node starts from what this one has written
  pub merge_base-upsert_node :
      merge_base base_label key_props result.1 ≡ written new_node extra_labels
  unfolding merge_base
  merge_base-upsert_node = rw upsert_node_lem (rw (lookup-insert_self, merge_base))

module _ (base_label : String) (key_props : Dict String String) (set_props : Props)
    (extra_labels : List String) (s : Store) where
  abbrev once : Result (Unit {0}) × Store
  once = upsert_node base_label key_props set_props extra_labels s

  -- upsert_node: called twice with equal arguments it does what one call does, with the same reply and the
  -- same store, the order of its entries included, whatever the properties are and also where it raises.
  pub upsert_node_twice : upsert_node base_label key_props set_props extra_labels once.1 ≡ once
  upsert_node_twice =
      let (replies, writes) =
        update-written (merge_base base_label key_props s) set_props extra_labels in
      upsert_node_lem base_label key_props set_props extra_labels once.1
      ∙ rw (merge_base-upsert_node base_label key_props set_props extra_labels s, replies, writes)
          (rw (upsert_node_lem base_label key_props set_props extra_labels s) (rw insert-insert))

  pub get_node-upsert_node :
      (label : String) (props : Dict String String)
      → get_node label props once.1 ≡ (
          if node_key label props == node_key base_label key_props
          then some (written (new_node base_label key_props set_props extra_labels s) extra_labels)
          else get_node label props s)
  unfolding get_node
  get_node-upsert_node label props =
      rw (upsert_node_lem base_label key_props set_props extra_labels s) (rw lookup-insert)

module _ (rel_type src_label : String) (src_key : Dict String String) (dst_label : String)
    (dst_key key_props : Dict String String) (set_props : Props) (s : Store) where
  abbrev linked : Result (Unit {0}) × Store
  linked = upsert_edge rel_type src_label src_key dst_label dst_key key_props set_props s

  abbrev ident : EdgeIdent
  ident = edge_ident rel_type src_label src_key dst_label dst_key key_props

  abbrev pub new_edge : Props
  new_edge = update (or_props (lookup ident s.edges) (as_props key_props)) set_props

  pub upsert_edge_lem : linked ≡ (ok tt, record s { edges = insert ident new_edge s.edges })
  unfolding upsert_edge
  upsert_edge_lem = ground arith

module _ (rel_type src_label : String) (src_key : Dict String String) (dst_label : String)
    (dst_key key_props : Dict String String) (set_props : Props) (s : Store) where
  -- upsert_edge: called twice with equal arguments it does what one call does, with the same reply and the
  -- same store, the order of its entries included.
  pub upsert_edge_twice :
      let once : Result (Unit {0}) × Store =
        upsert_edge rel_type src_label src_key dst_label dst_key key_props set_props s in
      upsert_edge rel_type src_label src_key dst_label dst_key key_props set_props once.1 ≡ once
  upsert_edge_twice =
      rw (upsert_edge_lem rel_type src_label src_key dst_label dst_key key_props set_props s)
        (rw upsert_edge_lem (rw lookup-insert_self (rw (update-update, insert-insert))))
