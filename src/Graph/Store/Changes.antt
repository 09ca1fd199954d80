-- ===== src/Graph/Store/Changes.antt =====
-- graph/store.py: an upsert, taken apart into changes of one property each.
use margin_mvp.Base.{
  String, ◌≡◌, ◌≢◌, refl, sym, ap, ◌∙◌, subst, ◌⊎◌, inl, inr, Option, none, some, List, string_eq,
}
use margin_mvp.Base.Lists.{All-map}
use margin_mvp.Base.Dict.{lookup, insert}
use margin_mvp.Base.Dict.Laws.{
  lookup-insert_self, lookup-insert_ne, lookup-insert_keeps, lookup-insert_present, insert-insert,
  insert_comm, insert_same,
}
use margin_mvp.Value.{Value, set, Props}
use margin_mvp.Graph.Store.{union}
use margin_mvp.Graph.Store.Merge.{contains-union, AllIn, union_of_AllIn, union-AllIn}

pub data Change : Type 0 where
  touch : Change
  put : String → Value → Change
  tag : List String → Change

-- labels are added to a set of labels only
abbrev pub add_to : List String → Option Value → Props → Props
add_to extra (some (set labels)) node = insert "_labels" (set (union labels extra)) node
add_to extra _ node = node

unfoldable pub apply : Change → Props → Props
apply touch node = node
apply (put k v) node = insert k v node
apply (tag extra) node = add_to extra (lookup "_labels" node) node

abbrev pub Plain : Change → Type 0
Plain (put k v) = k ≢ "_labels"
Plain _ = Unit

-- the labels are there, if there is a set of labels
abbrev Tagged : List String → Option Value → Type 0
Tagged extra (some (set labels)) = AllIn extra labels
Tagged extra _ = Unit

-- a change that was made and has not been taken back
abbrev pub IsMade : Change → Props → Type 0
IsMade touch node = Unit
IsMade (put k v) node = lookup k node ≢ none
IsMade (tag extra) node = Tagged extra (lookup "_labels" node)

add_to-cases :
    (extra : List String) (v : Option Value)
    → ((labels : List String) × (v ≡ some (set labels)))
      ⊎ (((node : Props) → add_to extra v node ≡ node) × ((more : List String) → Tagged more v))
add_to-cases extra none = inr ((λ node. refl), (λ more. tt))
add_to-cases extra (some (set labels)) = inl (labels, refl)
add_to-cases extra (some (Value.atom a)) = inr ((λ node. refl), (λ more. tt))
add_to-cases extra (some (Value.list l)) = inr ((λ node. refl), (λ more. tt))

tag_of_set :
    (extra labels : List String) (node : Props)
    → lookup "_labels" node ≡ some (set labels)
    → apply (tag extra) node ≡ insert "_labels" (set (union labels extra)) node
unfolding apply
tag_of_set extra labels node h = ap (λ v. add_to extra v node) h

lookup-tag :
    (extra labels : List String) (node : Props)
    → lookup "_labels" node ≡ some (set labels)
    → lookup "_labels" (apply (tag extra) node) ≡ some (set (union labels extra))
lookup-tag extra labels node h =
    ap (lookup "_labels") (tag_of_set extra labels node h)
    ∙ lookup-insert_self "_labels" (set (union labels extra)) node

pub apply_own : (a : Change) (node : Props) → IsMade a (apply a node)
unfolding apply
apply_own touch node = tt
apply_own (put k v) node = lookup-insert_present k v node
apply_own (tag extra) node = elim (add_to-cases extra (lookup "_labels" node)) [
  | inl (labels, h) ↦
      subst (Tagged extra) (sym (lookup-tag extra labels node h)) (union-AllIn labels extra)
  | inr (same, tagged) ↦
      subst (λ n. Tagged extra (lookup "_labels" n)) (sym (same node)) (tagged extra)
]

-- where a tag is there, making it again is of no effect
tag_made :
    (extra : List String) (node : Props) → IsMade (tag extra) node → apply (tag extra) node ≡ node
unfolding apply
tag_made extra node made = elim (add_to-cases extra (lookup "_labels" node)) [
  | inl (labels, h) ↦
      let there : AllIn extra labels = subst (Tagged extra) h made in
      tag_of_set extra labels node h
      ∙ ap (λ l. insert "_labels" (set l) node) (union_of_AllIn labels extra there)
      ∙ insert_same "_labels" (set labels) node h
  | inr (same, tagged) ↦ same node
]

AllIn-union :
    (extra labels more : List String) → AllIn extra labels → AllIn extra (union labels more)
AllIn-union extra labels more h = All-map extra (λ x there. contains-union labels more x there) h

pub apply_kept : (a b : Change) (node : Props) → Plain b → IsMade a node → IsMade a (apply b node)
unfolding apply
apply_kept touch b node plain made = tt
apply_kept a touch node plain made = made
apply_kept (put k v) (put j w) node plain made = lookup-insert_keeps k j w node made
apply_kept (put k v) (tag extra) node plain made =
    elim (add_to-cases extra (lookup "_labels" node)) [
      | inl (labels, h) ↦
          subst (λ n. lookup k n ≢ none) (sym (tag_of_set extra labels node h))
            (lookup-insert_keeps k "_labels" (set (union labels extra)) node made)
      | inr (same, _) ↦ subst (λ n. lookup k n ≢ none) (sym (same node)) made
    ]
apply_kept (tag extra) (put j w) node plain made =
    subst (Tagged extra) (sym (lookup-insert_ne "_labels" j w node (λ e. plain (sym e)))) made
apply_kept (tag extra) (tag more) node plain made =
    elim (add_to-cases more (lookup "_labels" node)) [
      | inl (labels, h) ↦
          subst (Tagged extra) (sym (lookup-tag more labels node h))
            (AllIn-union extra labels more (subst (Tagged extra) h made))
      | inr (same, _) ↦ subst (λ n. Tagged extra (lookup "_labels" n)) (sym (same node)) made
    ]

pub apply_again : (a : Change) (node : Props) → apply a (apply a node) ≡ apply a node
apply_again touch node = unfold apply in refl
apply_again (put k v) node = unfold apply in insert-insert k v v node
apply_again (tag extra) node = tag_made extra (apply (tag extra) node) (apply_own (tag extra) node)

abbrev Covered : Change → Change → Type 0
Covered b a = (node : Props) → IsMade a node → apply b (apply a node) ≡ apply b node

abbrev Commuting : Change → Change → Type 0
Commuting b a = (node : Props) → IsMade a node → apply b (apply a node) ≡ apply a (apply b node)

put_tag :
    (k : String) (v : Value) (extra : List String) → k ≢ "_labels" → Commuting (tag extra) (put k v)
unfolding apply
put_tag k v extra plain node made =
    let read : lookup "_labels" (insert k v node) ≡ lookup "_labels" node =
      lookup-insert_ne "_labels" k v node (λ e. plain (sym e)) in
    elim (add_to-cases extra (lookup "_labels" node)) [
      | inl (labels, h) ↦
          tag_of_set extra labels (insert k v node) (read ∙ h)
          ∙ sym
              (insert_comm "_labels" k v (set (union labels extra)) node (λ e. plain (sym e)) made)
          ∙ ap (insert k v) (sym (tag_of_set extra labels node h))
      | inr (same, _) ↦
          ap (λ x. add_to extra x (insert k v node)) read
          ∙ same (insert k v node)
          ∙ ap (insert k v) (sym (same node))
    ]

pub apply_meet : (b a : Change) → Plain b → Plain a → Covered b a ⊎ Commuting b a
apply_meet b touch pb pa = inl (λ node made. unfold apply in refl)
apply_meet b (tag extra) pb pa = inl (λ node made. ap (apply b) (tag_made extra node made))
apply_meet touch (put k v) pb pa = inr (λ node made. unfold apply in refl)
apply_meet (tag extra) (put k v) pb pa = inr (put_tag k v extra pa)
apply_meet (put j w) (put k v) pb pa = elim (string_eq.dec j k) [
  | yes same ↦ inl (λ node made.
      unfold apply in ap (λ i. insert j w (insert i v node)) (sym same) ∙ insert-insert j v w node)
  | no other ↦ inr (λ node made. unfold apply in sym (insert_comm j k v w node other made))
]
