-- ===== src/Graph/Store/Key.antt =====
-- graph/store.py: `_key` and the identity tuple of an edge. A frozenset of a dict's items is the list of
-- the items, sorted by key.
use Prim.Native.Nat.{Ordering}
use Prim.Native.String.{compare}
use mathlib.Core.Logic.{dite}
use margin_mvp.Base.{String, List, [], ◌∷◌}
use margin_mvp.Base.{Eq, string_eq, pair_eq, list_eq}
use margin_mvp.Base.Dict.{Dict}

abbrev pub FrozenSet : Type 0
FrozenSet = List (String × String)

-- A dict lists no key twice, so the middle case does not arise.
unfoldable pub insert_item : String → String → FrozenSet → FrozenSet
insert_item k v [] = (k, v) ∷ []
insert_item k v ((j, w) ∷ l) = elim (compare k j) [
  | Ordering.lt ↦ (k, v) ∷ (j, w) ∷ l
  | Ordering.eq ↦ (k, v) ∷ l
  | Ordering.gt ↦ (j, w) ∷ insert_item k v l
]

-- `frozenset(d.items())`
unfoldable pub frozenset : Dict String String → FrozenSet
unfolding insert_item
frozenset [] = []
frozenset ((k, v) ∷ d) = insert_item k v (frozenset d)

pub record NodeKey : Type 0 where
  pub label : String
  pub items : FrozenSet

-- `_key(base_label, key_props)`
unfoldable pub node_key : String → Dict String String → NodeKey
unfolding frozenset
node_key base_label key_props = record { label = base_label; items = frozenset key_props }

pub record EdgeIdent : Type 0 where
  pub rel : String
  pub src : NodeKey
  pub dst : NodeKey
  pub props : FrozenSet

frozenset_eq : Eq FrozenSet
unfolding list_eq pair_eq
frozenset_eq = list_eq

node_key_dec : Discrete NodeKey
node_key_dec a b =
    dite (string_eq.dec a.label b.label)
      (λ p.
        dite (frozenset_eq.dec a.items b.items)
          (λ q. yes (λ i. record { label = p i; items = q i }))
          (λ n. no (λ q. n (λ i. (q i).items))))
      (λ n. no (λ q. n (λ i. (q i).label)))

instance unfoldable pub node_key_eq : Eq NodeKey
unfolding node_key_dec frozenset_eq
node_key_eq = record { dec = node_key_dec }

edge_ident_dec : Discrete EdgeIdent
edge_ident_dec a b =
    dite (string_eq.dec a.rel b.rel)
      (λ p.
        dite (node_key_eq.dec a.src b.src)
          (λ q.
            dite (node_key_eq.dec a.dst b.dst)
              (λ r.
                dite (frozenset_eq.dec a.props b.props)
                  (λ t. yes (λ i. record { rel = p i; src = q i; dst = r i; props = t i }))
                  (λ n. no (λ e. n (λ i. (e i).props))))
              (λ n. no (λ e. n (λ i. (e i).dst))))
          (λ n. no (λ e. n (λ i. (e i).src))))
      (λ n. no (λ e. n (λ i. (e i).rel)))

instance unfoldable pub edge_ident_eq : Eq EdgeIdent
unfolding edge_ident_dec frozenset_eq
edge_ident_eq = record { dec = edge_ident_dec }
