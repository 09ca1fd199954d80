-- ===== src/Graph/Store/Reading.antt =====
-- graph/store.py: what `get_node` reads after `upsert_node`.
use margin_mvp.Base.{
  Option, String, ◌≡◌, ◌≢◌, refl, ap, sym, ◌∙◌, inl, inr, ◌⊎◌, none, some, List, [], ◌∷◌, ◌||◌,
  arith, contains, string_eq, if◌then◌else◌, Option-cases, ◌++◌,
}
use margin_mvp.Base.Dict.{Dict, lookup, insert, update, NodupKeys}
use margin_mvp.Base.Dict.Laws.{
  lookup-insert_self, lookup-insert_ne, lookup-update_of_absent, lookup-update_of_present,
}
use margin_mvp.Value.{set, Value, Props}
use margin_mvp.Graph.Store.{
  Store, union, add_labels, fresh_node, merge_base, upsert_node, as_props, get_node,
}
use margin_mvp.Graph.Store.Key.{node_key, node_key_eq}
use margin_mvp.Graph.Store.Merge.{contains-append, new_node, written, get_node-upsert_node}

contains-union_eq :
    (labels extra : List String) (x : String)
    → contains (union labels extra) x ≡ (contains labels x || contains extra x)
unfolding union
contains-union_eq labels [] x = ground arith
contains-union_eq labels (y ∷ extra) x = ground (
  arith,
  contains-union_eq (if contains labels y then labels else labels ++ y ∷ []) extra x,
  contains-append labels y x,
)

-- the value of a property of the node that is found, or else of one that has its key only
abbrev pub value_of : Dict String String → Option Props → String → Option Value
value_of key_props none k = lookup k (as_props key_props)
value_of key_props (some node) k = lookup k node

-- the labels of the node that is found, or else the base label only
abbrev pub HasLabels : String → Option Props → List String → Type 0
HasLabels base_label none labels = labels ≡ base_label ∷ []
HasLabels base_label (some node) labels = lookup "_labels" node ≡ some (set labels)

-- a value that was given, or else the one before
abbrev pub or_before : Option Value → Option Value → Option Value
or_before none old = old
or_before (some given) old = some given

abbrev base_of : String → Dict String String → Option Props → Props
base_of base_label key_props none = fresh_node base_label key_props
base_of base_label key_props (some node) = node

base_of-value_of :
    (base_label : String) (key_props : Dict String String) (found : Option Props) (k : String)
    → k ≢ "_labels"
    → lookup k (base_of base_label key_props found) ≡ value_of key_props found k
unfolding fresh_node
base_of-value_of base_label key_props none k other = lookup-insert_ne k "_labels" _ _ other
base_of-value_of base_label key_props (some node) k other = refl

base_of-labels :
    (base_label : String) (key_props : Dict String String) (found : Option Props)
    (labels : List String)
    → HasLabels base_label found labels
    → lookup "_labels" (base_of base_label key_props found) ≡ some (set labels)
unfolding fresh_node
base_of-labels base_label key_props none labels h =
    lookup-insert_self "_labels" _ _ ∙ ap (λ ls. some (set ls)) (sym h)
base_of-labels base_label key_props (some node) labels h = h

lookup-update :
    (k : String) (base new : Props)
    → NodupKeys new
    → lookup k (update base new) ≡ or_before (lookup k new) (lookup k base)
lookup-update k base new once = elim (Option-cases (lookup k new)) [
  | inl absent ↦ rw absent (lookup-update_of_absent k base new absent)
  | inr (v, there) ↦ rw there (lookup-update_of_present k v base new once there)
]

written_labelled :
    (node : Props) (labels extra : List String)
    → lookup "_labels" node ≡ some (set labels)
    → written node extra ≡ insert "_labels" (set (union labels extra)) node
unfolding add_labels
written_labelled node labels extra h = rw (h, add_labels) refl

module _ (base_label : String) (key_props : Dict String String) (set_props : Props)
    (extra_labels : List String) (s : Store) where
  abbrev found : Option Props
  found = get_node base_label key_props s

  abbrev after : Store
  after = (upsert_node base_label key_props set_props extra_labels s).1

  base_found : merge_base base_label key_props s ≡ base_of base_label key_props found
  unfolding merge_base get_node
  base_found = elim (Option-cases (lookup (node_key base_label key_props) s.nodes)) [
    | inl absent ↦ rw (absent, merge_base) refl
    | inr (node, there) ↦ rw (there, merge_base) refl
  ]

  -- the node that get_node reads then: its properties and its labels
  pub record Merged (labels : List String) (node : Props) : Type 0 where
    pub properties :
        (k : String)
        → (k ≡ "_labels")
          ⊎ (lookup k node ≡ or_before (lookup k set_props) (value_of key_props found k))
    pub labelled :
        (ls : List String) × (lookup "_labels" node ≡ some (set ls))
        × ((x : String) → contains ls x ≡ (contains labels x || contains extra_labels x))

  module _ (once : NodupKeys set_props) (plain : lookup "_labels" set_props ≡ none)
      (labels : List String) (held : HasLabels base_label found labels) where
    abbrev fields : Props
    fields = new_node base_label key_props set_props extra_labels s

    fields-lookup :
        (k : String)
        → lookup k fields
          ≡ or_before (lookup k set_props) (lookup k (base_of base_label key_props found))
    fields-lookup k =
        rw (← base_found) (lookup-update k (merge_base base_label key_props s) set_props once)

    fields-labels : lookup "_labels" fields ≡ some (set labels)
    fields-labels =
        fields-lookup "_labels" ∙ rw plain (base_of-labels base_label key_props found labels held)

    written-Merged : Merged labels (written fields extra_labels)
    written-Merged = rw (written_labelled fields labels extra_labels fields-labels) (record {
      properties = λ k. elim (string_eq.dec k "_labels") [
        | yes same ↦ inl same
        | no other ↦ inr (
            lookup-insert_ne k "_labels" _ fields other
            ∙ fields-lookup k
            ∙ ap (or_before (lookup k set_props))
                (base_of-value_of base_label key_props found k other))
      ];
      labelled = (
        union labels extra_labels,
        lookup-insert_self "_labels" _ fields,
        contains-union_eq labels extra_labels,
      );
    })

    -- get_node after upsert_node, for properties that name each key once and not "_labels", where the node
    -- that is there, if one is, has a set of labels: it reads a node in which each property is the one given,
    -- or else the one that it had, a new node having its key properties, and whose labels are those it
    -- had, the base label for a new node, and the extra ones; at every other key it reads what it read before.
    pub upsert_node-Merged :
        (label : String) (props : Dict String String)
        → ((node : Props) × (get_node base_label key_props after ≡ some node) × Merged labels node)
          × ((node_key label props ≡ node_key base_label key_props)
              ⊎ (get_node label props after ≡ get_node label props s))
    upsert_node-Merged label props =
        let read = get_node-upsert_node base_label key_props set_props extra_labels s in
        (
          (
            written fields extra_labels,
            rw (read base_label key_props) (ground arith),
            written-Merged,
          ),
          elim (node_key_eq.dec (node_key label props) (node_key base_label key_props)) [
            | yes same ↦ inl same
            | no other ↦ inr (rw (read label props) (ground arith))
          ],
        )
