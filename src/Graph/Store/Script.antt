-- ===== src/Graph/Store/Script.antt =====
-- graph/store.py: sequences of the two writes of the in-memory store.
use margin_mvp.Base.{
  String, ◌≡◌, refl, sym, ap, ◌∙◌, Option, none, some, List, [], ◌∷◌, ◌++◌, arith, string_eq,
}
use margin_mvp.Base.Lists.{All, All-append}
use margin_mvp.Base.Dict.{Dict, lookup, insert, update}
use margin_mvp.Base.Dict.Laws.{lookup-insert_self, insert-insert}
use margin_mvp.Base.Replay.{write_all, write_all-append}
use margin_mvp.Value.{Props, set, atom, list}
use margin_mvp.Graph.Store.{
  Store, upsert_node, upsert_edge, merge_base, fresh_node, as_props, edge_ident,
}
use margin_mvp.Graph.Store.Key.{NodeKey, EdgeIdent, node_key, node_key_eq, edge_ident_eq}
use margin_mvp.Graph.Store.Merge.{
  or_props, written, new_node, upsert_node_lem, upsert_edge_lem, settled,
}
use margin_mvp.Graph.Store.Changes.{add_to, Change, touch, put, tag, apply, Plain}
use margin_mvp.Graph.Store.Edits.{Edit, edit, PlainEdit, edits_twice, edit_lem}
use margin_mvp.Base.{Eq}
use margin_mvp.Graph.Store.{add_labels, Value, err, key_error, ok, union, attribute_error}

-- a call of a write
pub data Write : Type 0 where
  node : String → Dict String String → Props → List String → Write
  edge :
      String
      → String
      → Dict String String
      → String
      → Dict String String
      → Dict String String
      → Props
      → Write

-- what a write leaves behind, whether it returns or raises
unfoldable pub write : Write → Store → Store
write (node base_label key_props set_props extra) s =
    (upsert_node base_label key_props set_props extra s).1
write (edge rel src_label src_key dst_label dst_key key_props set_props) s =
    (upsert_edge rel src_label src_key dst_label dst_key key_props set_props s).1

abbrev pub IsPlain : Write → Type 0
IsPlain (node _ _ set_props _) = lookup "_labels" set_props ≡ none
IsPlain (edge _ _ _ _ _ _ set_props) = lookup "_labels" set_props ≡ none

module _ {K : Type 0} ⦃e : Eq K⦄ (k : K) (base : Props) where
  -- an update and a last change, one property at a time
  abbrev edits_of : Props → Change → List (Edit K)
  edits_of [] last = record { key = k; base = base; change = last } ∷ []
  edits_of ((p, v) ∷ props) last =
      record { key = k; base = base; change = put p v } ∷ edits_of props last

  edits_of-Plain :
      (props : Props) (last : Change)
      → lookup "_labels" props ≡ none
      → Plain last
      → All PlainEdit (edits_of props last)
  unfolding lookup
  edits_of-Plain [] last h plain = (plain, tt)
  edits_of-Plain ((p, v) ∷ props) last h plain =
      ((λ same. ground arith), edits_of-Plain props last (ground arith) plain)

  edits_of_lem :
      (props : Props) (last : Change) (d : Dict K Props)
      → write_all edit (edits_of props last) d
        ≡ insert k (apply last (update (or_props (lookup k d) base) props)) d
  unfolding update
  edits_of_lem [] last d = edit_lem _ d
  edits_of_lem ((p, v) ∷ props) last d =
      let first : Props = insert p v (or_props (lookup k d) base) in
      let one : edit (record { key = k; base = base; change = put p v }) d ≡ insert k first d =
        unfold apply in edit_lem (record { key = k; base = base; change = put p v }) d in
      ap (write_all edit (edits_of props last)) one
      ∙ edits_of_lem props last (insert k first d)
      ∙ ap (λ o. insert k (apply last (update (or_props o base) props)) (insert k first d))
          (lookup-insert_self k first d)
      ∙ insert-insert k first (apply last (update first props)) d

settled-tag :
    (old : Props) (extra : List String) (v : Option Value)
    → settled old (elim v [
      | none ↦ err (key_error "_labels")
      | some (set labels) ↦ ok (insert "_labels" (set (union labels extra)) old)
      | some _ ↦ err attribute_error
    ])
      ≡ add_to extra v old
settled-tag old extra none = refl
settled-tag old extra (some (atom a)) = refl
settled-tag old extra (some (list l)) = refl
settled-tag old extra (some (set labels)) = refl

written-tag : (old : Props) (extra : List String) → written old extra ≡ apply (tag extra) old
unfolding add_labels apply
written-tag old extra = settled-tag old extra (lookup "_labels" old)

apply-touch : (old : Props) → apply touch old ≡ old
unfolding apply
apply-touch old = refl

merge_base_lem :
    (base_label : String) (key_props : Dict String String) (s : Store)
    → merge_base base_label key_props s
      ≡ or_props (lookup (node_key base_label key_props) s.nodes) (fresh_node base_label key_props)
unfolding merge_base
merge_base_lem base_label key_props s = ground arith

-- the edits of a write, of the nodes and of the edges
abbrev node_edits : Write → List (Edit NodeKey)
node_edits (node base_label key_props set_props extra) =
    edits_of (node_key base_label key_props) (fresh_node base_label key_props) set_props (tag extra)
node_edits (edge _ _ _ _ _ _ _) = []

abbrev edge_edits : Write → List (Edit EdgeIdent)
edge_edits (node _ _ _ _) = []
edge_edits (edge rel src_label src_key dst_label dst_key key_props set_props) =
    edits_of (edge_ident rel src_label src_key dst_label dst_key key_props) (as_props key_props)
      set_props touch

abbrev edited : List (Edit NodeKey) → List (Edit EdgeIdent) → Store → Store
edited ns es s = record { nodes = write_all edit ns s.nodes; edges = write_all edit es s.edges }

write_lem : (w : Write) (s : Store) → write w s ≡ edited (node_edits w) (edge_edits w) s
unfolding write
write_lem (node base_label key_props set_props extra) s =
    let k = node_key base_label key_props in
    let same : new_node base_label key_props set_props extra s
        ≡ update (or_props (lookup k s.nodes) (fresh_node base_label key_props)) set_props =
      ap (λ b. update b set_props) (merge_base_lem base_label key_props s) in
    ap (λ r. r.1) (upsert_node_lem base_label key_props set_props extra s)
    ∙ ap (λ n. record s { nodes = insert k n s.nodes })
        (written-tag (new_node base_label key_props set_props extra s) extra
          ∙ ap (apply (tag extra)) same)
    ∙ ap (λ d. record s { nodes = d })
        (sym (edits_of_lem k (fresh_node base_label key_props) set_props (tag extra) s.nodes))
write_lem (edge rel src_label src_key dst_label dst_key key_props set_props) s =
    let k = edge_ident rel src_label src_key dst_label dst_key key_props in
    let new : Props = update (or_props (lookup k s.edges) (as_props key_props)) set_props in
    ap (λ r. r.1) (upsert_edge_lem rel src_label src_key dst_label dst_key key_props set_props s)
    ∙ ap (λ d. record s { edges = d })
        (ap (λ e. insert k e s.edges) (sym (apply-touch new))
          ∙ sym (edits_of_lem k (as_props key_props) set_props touch s.edges))

abbrev all_edits : {K : Type 0} → (Write → List (Edit K)) → List Write → List (Edit K)
all_edits edits [] = []
all_edits edits (w ∷ ws) = edits w ++ all_edits edits ws

script_lem :
    (ws : List Write) (s : Store)
    → write_all write ws s ≡ edited (all_edits node_edits ws) (all_edits edge_edits ws) s
script_lem [] s = refl
script_lem (w ∷ ws) s =
    ap (write_all write ws) (write_lem w s)
    ∙ script_lem ws (edited (node_edits w) (edge_edits w) s)
    ∙ (λ i. record {
      nodes = sym (write_all-append edit (node_edits w) (all_edits node_edits ws) s.nodes) i;
      edges = sym (write_all-append edit (edge_edits w) (all_edits edge_edits ws) s.edges) i;
    })

all_edits-Plain :
    (ws : List Write)
    → All IsPlain ws
    → All PlainEdit (all_edits node_edits ws) × All PlainEdit (all_edits edge_edits ws)
all_edits-Plain [] plain = (tt, tt)
all_edits-Plain (node base_label key_props set_props extra ∷ ws) (h, plain) =
    let (ns, es) = all_edits-Plain ws plain in
    (
      All-append PlainEdit (edits_of _ _ set_props (tag extra)) (all_edits node_edits ws)
          (edits_of-Plain _ _ set_props (tag extra) h tt) ns,
      es,
    )
all_edits-Plain (edge rel src_label src_key dst_label dst_key key_props set_props ∷ ws) (h, plain) =
    let (ns, es) = all_edits-Plain ws plain in
    (
      ns,
      All-append PlainEdit (edits_of _ _ set_props touch) (all_edits edge_edits ws)
          (edits_of-Plain _ _ set_props touch h tt) es,
    )

-- InMemoryGraphStore, any sequence of upserts of nodes and edges whose set properties have none named
-- "_labels", each returning or raising: made again after itself, it leaves the store as it was, the order
-- of the entries included, whatever keys and properties the upserts share.
pub writes_twice :
    (ws : List Write) (s : Store)
    → All IsPlain ws
    → write_all write ws (write_all write ws s) ≡ write_all write ws s
writes_twice ws s plain =
    let (ns, es) = all_edits-Plain ws plain in
    let once : Store = edited (all_edits node_edits ws) (all_edits edge_edits ws) s in
    ap (write_all write ws) (script_lem ws s)
    ∙ script_lem ws once
    ∙ (λ i. record {
      nodes = edits_twice (all_edits node_edits ws) s.nodes ns i;
      edges = edits_twice (all_edits edge_edits ws) s.edges es i;
    })
    ∙ sym (script_lem ws s)
