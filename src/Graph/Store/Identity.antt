-- ===== src/Graph/Store/Identity.antt =====
-- graph/store.py: what `_key` tells apart, the order of a dict's items left out.
use Prim.Native.Nat.{Ordering}
use Prim.Native.Nat.Ordering.{lt, eq, gt}
use Prim.Native.String.compare
use Prim.Native.String.{compare}
use text.Mathlib.TextEquality.{path_by_compare}
use text.Mathlib.TextPositions.{compare_refl}
use mathlib.Core.Option.{some-injective}
use margin_mvp.Base.{
  String, ◌≡◌, ◌≢◌, ◌↔◌, ◌⊎◌, inl, inr, refl, sym, ap, ◌∙◌, subst, none, some, [], ◌∷◌, arith, ◌==◌,
  string_eq, if◌then◌else◌,
}
use margin_mvp.Base.Lists.{All, All-map}
use margin_mvp.Base.Dict.{Dict, lookup}
use margin_mvp.Graph.Store.Key.{FrozenSet, insert_item, frozenset, node_key}

-- the order of texts, by the codes of their characters
lt_of_gt : (s t : String) → compare s t ≡ gt → compare t s ≡ lt
lt_of_gt String.[] String.[] h = ground (arith, compare.nil-nil)
lt_of_gt String.[] (String.◌∷◌ d t) h = ground (arith, compare.nil-cons d t)
lt_of_gt (String.◌∷◌ c s) String.[] h = compare.nil-cons c s
lt_of_gt (String.◌∷◌ c s) (String.◌∷◌ d t) h =
    ground (arith, lt_of_gt s t, compare.cons-cons c d s t, compare.cons-cons d c t s)

not_before_empty : (s : String) → compare s "" ≢ lt
not_before_empty String.[] h = ground (arith, compare.nil-nil)
not_before_empty (String.◌∷◌ c s) h = ground (arith, compare.cons-nil c s)

lt_trans : (s t u : String) → compare s t ≡ lt → compare t u ≡ lt → compare s u ≡ lt
lt_trans s String.[] u h g = absurd (not_before_empty s h)
lt_trans String.[] (String.◌∷◌ d t) String.[] h g = ground (arith, compare.cons-nil d t)
lt_trans String.[] (String.◌∷◌ d t) (String.◌∷◌ e u) h g = compare.nil-cons e u
lt_trans (String.◌∷◌ c s) (String.◌∷◌ d t) String.[] h g = ground (arith, compare.cons-nil d t)
lt_trans (String.◌∷◌ c s) (String.◌∷◌ d t) (String.◌∷◌ e u) h g = ground (
  arith,
  lt_trans s t u,
  compare.cons-cons c d s t,
  compare.cons-cons d e t u,
  compare.cons-cons c e s u,
)

lt-ne : (s t : String) → compare s t ≡ lt → s ≢ t
lt-ne s t h same =
    let e : compare s t ≡ eq = subst (λ u. compare s u ≡ eq) same (compare_refl s) in cc

Ordering-cases : (o : Ordering) → (o ≡ lt) ⊎ (o ≡ eq) ⊎ (o ≡ gt)
Ordering-cases Ordering.lt = inl refl
Ordering-cases Ordering.eq = inr (inl refl)
Ordering-cases Ordering.gt = inr (inr refl)

abbrev Before : String → FrozenSet → Type 0
Before k l = All (λ (j, _). compare k j ≡ lt) l

-- the items stand in the order of their keys
abbrev IsSorted : FrozenSet → Type 0
IsSorted [] = Unit
IsSorted ((k, _) ∷ l) = Before k l × IsSorted l

Before-insert_item :
    (j k v : String) (l : FrozenSet) → compare j k ≡ lt → Before j l → Before j (insert_item k v l)
unfolding insert_item
Before-insert_item j k v [] h b = (h, tt)
Before-insert_item j k v ((i, w) ∷ l) h (first, b) =
    ground (arith, Before-insert_item j k v l h b, path_by_compare k i)

-- the three turns of an insertion
module _ (k v j w : String) (l : FrozenSet) where
  insert_item_first : compare k j ≡ lt → insert_item k v ((j, w) ∷ l) ≡ (k, v) ∷ (j, w) ∷ l
  unfolding insert_item
  insert_item_first less = rw (less, insert_item) refl

  insert_item_here : compare k j ≡ eq → insert_item k v ((j, w) ∷ l) ≡ (k, v) ∷ l
  unfolding insert_item
  insert_item_here same = rw (same, insert_item) refl

  insert_item_later : compare k j ≡ gt → insert_item k v ((j, w) ∷ l) ≡ (j, w) ∷ insert_item k v l
  unfolding insert_item
  insert_item_later more = rw (more, insert_item) refl

insert_item-IsSorted : (k v : String) (l : FrozenSet) → IsSorted l → IsSorted (insert_item k v l)
insert_item-IsSorted k v [] h = unfold insert_item in (tt, tt)
insert_item-IsSorted k v ((j, w) ∷ l) (b, h) = elim (Ordering-cases (compare k j)) [
  | inl less ↦
      rw (insert_item_first k v j w l less)
        ((less, All-map l (λ (i, _) r. lt_trans k j i less r) b), (b, h))
  | inr (inl same) ↦
      rw (insert_item_here k v j w l same)
        (subst (λ i. Before i l) (sym (path_by_compare k j same)) b, h)
  | inr (inr more) ↦
      rw (insert_item_later k v j w l more)
        (Before-insert_item j k v l (lt_of_gt k j more) b, insert_item-IsSorted k v l h)
]

frozenset-IsSorted : (d : Dict String String) → IsSorted (frozenset d)
unfolding frozenset
frozenset-IsSorted [] = tt
frozenset-IsSorted ((k, v) ∷ d) = insert_item-IsSorted k v (frozenset d) (frozenset-IsSorted d)

lookup-insert_item :
    (j k v : String) (l : FrozenSet)
    → lookup j (insert_item k v l) ≡ (if j == k then some v else lookup j l)
unfolding insert_item lookup
lookup-insert_item j k v [] = refl
lookup-insert_item j k v ((i, w) ∷ l) = elim (Ordering-cases (compare k i)) [
  | inl less ↦ ap (lookup j) (insert_item_first k v i w l less) ∙ ground arith
  | inr (inl same) ↦
      ap (lookup j) (insert_item_here k v i w l same) ∙ ground (arith, path_by_compare k i same)
  | inr (inr more) ↦
      ap (lookup j) (insert_item_later k v i w l more)
      ∙ ground (arith, lookup-insert_item j k v l, lt-ne i k (lt_of_gt k i more))
]

lookup-frozenset : (k : String) (d : Dict String String) → lookup k (frozenset d) ≡ lookup k d
unfolding frozenset lookup
lookup-frozenset k [] = refl
lookup-frozenset k ((j, v) ∷ d) =
    lookup-insert_item k j v (frozenset d) ∙ ground (arith, lookup-frozenset k d)

-- two dicts that hold the same items
abbrev pub SameItems : Dict String String → Dict String String → Type 0
SameItems d e = (k : String) → lookup k d ≡ lookup k e

lookup-Before : (k : String) (l : FrozenSet) → Before k l → lookup k l ≡ none
unfolding lookup
lookup-Before k [] b = refl
lookup-Before k ((j, w) ∷ l) (less, b) = ground (arith, lt-ne k j less, lookup-Before k l b)

lookup-head : (k v : String) (l : FrozenSet) → lookup k ((k, v) ∷ l) ≡ some v
unfolding lookup
lookup-head k v l = ground arith

-- the least key of a sorted list is the least key of every sorted list with the same items
heads :
    (k v j w : String) (l m : FrozenSet)
    → compare k j ≡ lt
    → IsSorted ((j, w) ∷ m)
    → SameItems ((k, v) ∷ l) ((j, w) ∷ m)
    → ⊥
heads k v j w l m less (b, h) same =
    let absent : lookup k ((j, w) ∷ m) ≡ none =
      lookup-Before k ((j, w) ∷ m) (less, All-map m (λ (i, _) r. lt_trans k j i less r) b) in
    let found : lookup k ((j, w) ∷ m) ≡ some v = sym (same k) ∙ lookup-head k v l in cc

tails :
    (k v : String) (l m : FrozenSet)
    → Before k l
    → Before k m
    → SameItems ((k, v) ∷ l) ((k, v) ∷ m)
    → SameItems l m
unfolding lookup
tails k v l m bl bm same j = ground (arith, same j, lookup-Before k l bl, lookup-Before k m bm)

sorted_same : (l m : FrozenSet) → IsSorted l → IsSorted m → SameItems l m → l ≡ m
unfolding lookup
sorted_same [] [] hl hm same = refl
sorted_same [] ((j, w) ∷ m) hl hm same = let h : none ≡ some w = same j ∙ lookup-head j w m in cc
sorted_same ((k, v) ∷ l) [] hl hm same =
    let h : none ≡ some v = sym (same k) ∙ lookup-head k v l in cc
sorted_same ((k, v) ∷ l) ((j, w) ∷ m) (bl, hl) (bm, hm) same = elim (Ordering-cases (compare k j)) [
  | inl less ↦ absurd (heads k v j w l m less (bm, hm) same)
  | inr (inl e) ↦
      let key : j ≡ k = sym (path_by_compare k j e) in
      let first : ((j, w) ∷ m) ≡ ((k, w) ∷ m) = ap (λ i. (i, w) ∷ m) key in
      let found : some v ≡ some w =
        sym (lookup-head k v l) ∙ same k ∙ ap (lookup k) first ∙ lookup-head k w m in
      let whole : ((j, w) ∷ m) ≡ ((k, v) ∷ m) =
        first ∙ ap (λ x. (k, x) ∷ m) (sym (some-injective v w found)) in
      let below : Before k m = subst (λ i. Before i m) key bm in
      let rest : l ≡ m =
        sorted_same l m hl hm (tails k v l m bl below (λ i. same i ∙ ap (lookup i) whole)) in
      ap (λ r. (k, v) ∷ r) rest ∙ sym whole
  | inr (inr more) ↦ absurd (heads j w k v m l (lt_of_gt k j more) (bl, hl) (λ i. sym (same i)))
]

-- frozenset: two dicts give one set exactly if they hold the same items.
frozenset_iff : (d e : Dict String String) → (frozenset d ≡ frozenset e) ↔ SameItems d e
frozenset_iff d e = (
  (λ h k. sym (lookup-frozenset k d) ∙ ap (lookup k) h ∙ lookup-frozenset k e),
  (λ same.
      sorted_same (frozenset d) (frozenset e) (frozenset-IsSorted d) (frozenset-IsSorted e)
        (λ k. lookup-frozenset k d ∙ same k ∙ sym (lookup-frozenset k e))),
)

-- _key: two nodes have one identity key exactly if their base labels are equal and their key properties hold
-- the same items, in whatever order the two dicts list them.
pub node_key_iff :
    (base_label label : String) (key_props props : Dict String String)
    → (node_key base_label key_props ≡ node_key label props)
      ↔ ((base_label ≡ label) × SameItems key_props props)
unfolding node_key
node_key_iff base_label label key_props props = (
  (λ h. (ap (λ k. k.label) h, (frozenset_iff key_props props).0 (ap (λ k. k.items) h))),
  (λ (p, same).
      let q = (frozenset_iff key_props props).1 same in λ i. record { label = p i; items = q i }),
)
