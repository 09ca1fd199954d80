-- ===== src/Graph/Client/Steps.antt =====
-- graph/client.py: the predicate of a sound client, and the two kinds of write.
use margin_mvp.Base.{
  String, ◌≡◌, refl, inl, inr, ◌⊎◌, true, none, some, List, [], ◌∷◌, arith, contains, string_eq,
  Bool-cases,
}
use margin_mvp.Base.Lists.{All, All-append}
use margin_mvp.Base.Dict.{Dict, lookup, update, NodupKeys}
use margin_mvp.Base.Dict.Laws.{lookup-update_of_present, insert-entries}
use margin_mvp.Base.Exec.{Result, ok}
use margin_mvp.Value.{Props, text_value}
use margin_mvp.Graph.Model.{CoreLabel, label, RelType, rel_name, EdgeProvenance}
use margin_mvp.Graph.Store.{union, upsert_node, edge_ident}
use margin_mvp.Graph.Store.Key.{NodeKey, EdgeIdent, node_key, node_key_eq, edge_ident_eq}
use margin_mvp.Graph.Store.Merge.{contains-union, edges-upsert_node, upsert_edge_lem}
use margin_mvp.Graph.Store.WellFormed.{Holds, upsert_node-Holds, upsert_edge-Holds}
use margin_mvp.Graph.Client.{Client, clean, on_store}
use margin_mvp.Graph.Client.Edges.{edge, provenance_props}
use margin_mvp.Base.{◌++◌}

-- a label that a node with base label `base` may carry
abbrev pub Permitted : List String → String → String → Type 0
Permitted subtypes base l = (l ≡ base) ⊎ ((base ≡ "Entity") × (contains subtypes l ≡ true))

abbrev pub LabelsAllowed : List String → NodeKey → List String → Type 0
LabelsAllowed subtypes k labels =
    (contains labels k.label ≡ true) × All (Permitted subtypes k.label) labels

abbrev pub HasProvenance : Props → Type 0
HasProvenance e =
    (prov : EdgeProvenance) × (lookup "source_ref" e ≡ some (text_value prov.source_ref))
    × (lookup "as_of" e ≡ some (text_value prov.as_of))
    × (lookup "created_by" e ≡ some (text_value prov.created_by))

abbrev pub EdgeAllowed : List String → EdgeIdent → Props → Type 0
EdgeAllowed types ident e =
    (((t : RelType) × (ident.rel ≡ rel_name t)) ⊎ (contains types ident.rel ≡ true))
    × HasProvenance e

pub record IsSound (c : Client) : Type 0 where
  pub nodes : Holds (LabelsAllowed c.entity_subtypes) c.store
  pub edges :
      (ident : EdgeIdent) (e : Props)
      → lookup ident c.store.edges ≡ some e
      → EdgeAllowed c.pack_edge_types ident e

pub lookup-clean_of_absent :
    (k : String) (props : Props) → lookup k props ≡ none → lookup k (clean props) ≡ none
unfolding clean lookup
lookup-clean_of_absent k [] h = refl
lookup-clean_of_absent k ((j, v) ∷ props) h = ground (arith, lookup-clean_of_absent k props)

All-union :
    (P : String → Type 0) (labels extra : List String)
    → All P labels
    → All P extra
    → All P (union labels extra)
unfolding union
All-union P labels [] h g = h
All-union P labels (x ∷ extra) h (px, g) = elim (Bool-cases (contains labels x)) [
  | inl there ↦ rw there (All-union P labels extra h g)
  | inr absent ↦
      rw absent (All-union P (labels ++ x ∷ []) extra (All-append P labels (x ∷ []) h (px, tt)) g)
]

-- An upsert of a node keeps the client sound, and returns.
abbrev pub Done : Result (Unit {0}) × Client → Type 0
Done r = (r.0 ≡ ok tt) × IsSound r.1

module _ (l : CoreLabel) (key_props : Dict String String) (props : Props) (extra : List String)
    (c : Client) (permitted : All (Permitted c.entity_subtypes (label l)) extra)
    (plain : lookup "_labels" props ≡ none) (h : IsSound c) where
  pub node_step : Done (on_store (upsert_node (label l) key_props props extra) c)
  unfolding on_store node_key
  node_step =
      let (returns, holds) =
        upsert_node-Holds {P = LabelsAllowed c.entity_subtypes} (label l) key_props props extra
          c.store (ground arith, (inl refl, tt))
          (λ labels (there, all).
            (contains-union labels extra (label l) there, All-union _ labels extra all permitted))
          plain h.nodes in
      (
        returns,
        record {
          nodes = holds;
          edges = rw (edges-upsert_node (label l) key_props props extra c.store) h.edges;
        },
      )

provenance_props-NodupKeys : (prov : EdgeProvenance) → NodupKeys (provenance_props prov)
unfolding provenance_props lookup string_eq
provenance_props-NodupKeys prov = (refl, (refl, (refl, tt)))

update-HasProvenance :
    (old : Props) (prov : EdgeProvenance) → HasProvenance (update old (provenance_props prov))
update-HasProvenance old prov =
    let set : (k v : String)
        → lookup k (provenance_props prov) ≡ some (text_value v)
        → lookup k (update old (provenance_props prov)) ≡ some (text_value v) =
      λ k v.
        lookup-update_of_present k (text_value v) old (provenance_props prov)
          (provenance_props-NodupKeys prov) in
    (
      prov,
      set "source_ref" prov.source_ref (unfold provenance_props lookup string_eq in refl),
      set "as_of" prov.as_of (unfold provenance_props lookup string_eq in refl),
      set "created_by" prov.created_by (unfold provenance_props lookup string_eq in refl),
    )

module _ (rel : String) (src_label : CoreLabel) (src_key : Dict String String)
    (dst_label : CoreLabel) (dst_key : Dict String String) (prov : EdgeProvenance)
    (key_props : Dict String String) (c : Client)
    (allowed : ((t : RelType) × (rel ≡ rel_name t)) ⊎ (contains c.pack_edge_types rel ≡ true))
    (h : IsSound c) where
  pub edge_step : Done (edge rel src_label src_key dst_label dst_key prov key_props c)
  unfolding edge edge_ident
  edge_step = rw upsert_edge_lem (
    refl,
    record {
      nodes = rw upsert_edge_lem at (
          upsert_edge-Holds rel (label src_label) src_key (label dst_label) dst_key key_props
            (provenance_props prov) c.store h.nodes);
      edges =
          insert-entries (EdgeAllowed c.pack_edge_types) _ _ c.store.edges h.edges
            (allowed, update-HasProvenance _ prov);
    },
  )
