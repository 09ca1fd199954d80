-- ===== src/Graph/Store/Neighbors.antt =====
-- graph/store.py: `out_neighbors` and its specification.
use margin_mvp.Base.{◌↔◌, String, ◌≡◌, inl, inr, ◌⊎◌, some, [], ◌∷◌, arith, string_eq}
use margin_mvp.Base.Lists.{In}
use margin_mvp.Base.Dict.{Dict, lookup, NodupKeys}
use margin_mvp.Base.Dict.Laws.{lookup-cons}
use margin_mvp.Value.{Props}
use margin_mvp.Graph.Store.{Store, neighbors_among, out_neighbors}
use margin_mvp.Graph.Store.Key.{NodeKey, EdgeIdent, node_key, node_key_eq, edge_ident_eq}

module _ (src : NodeKey) (rel_type : String) (nodes : Dict NodeKey Props) where
  abbrev pub Leads : EdgeIdent → Props → Type 0
  Leads ident node =
      (ident.rel ≡ rel_type) × (ident.src ≡ src) × (lookup ident.dst nodes ≡ some node)

  -- an edge among `edges` leads from `src` to `node`
  abbrev pub Linked : Dict EdgeIdent Props → Props × Props → Type 0
  Linked edges p = (ident : EdgeIdent) × (lookup ident edges ≡ some p.1) × Leads ident p.0

  neighbors_among-cons :
      (ident : EdgeIdent) (e : Props) (edges : Dict EdgeIdent Props) (p : Props × Props)
      → In p (neighbors_among src rel_type nodes ((ident, e) ∷ edges))
      → ((p.1 ≡ e) × Leads ident p.0) ⊎ In p (neighbors_among src rel_type nodes edges)
  unfolding neighbors_among
  neighbors_among-cons ident e edges p h = ground arith

  neighbors_among-Linked :
      (edges : Dict EdgeIdent Props) (p : Props × Props)
      → NodupKeys edges
      → In p (neighbors_among src rel_type nodes edges)
      → Linked edges p
  unfolding neighbors_among
  neighbors_among-Linked [] p u h = absurd h
  neighbors_among-Linked ((ident, e) ∷ edges) p (fresh, u) h =
      elim (neighbors_among-cons ident e edges p h) [
        | inl (same, leads) ↦ (ident, rw lookup-cons (ground arith), leads)
        | inr rest ↦
            let (i, found, leads) = neighbors_among-Linked edges p u rest in
            (i, rw lookup-cons (ground arith), leads)
      ]

  In-neighbors_among :
      (edges : Dict EdgeIdent Props) (p : Props × Props) (i : EdgeIdent)
      → lookup i edges ≡ some p.1
      → Leads i p.0
      → In p (neighbors_among src rel_type nodes edges)
  unfolding neighbors_among lookup
  In-neighbors_among [] p i found leads = cc
  In-neighbors_among ((ident, e) ∷ edges) p i found leads =
      ground (arith, In-neighbors_among edges p i)

-- out_neighbors, on a store that lists each edge once: it gives exactly the pairs of a node and an edge's
-- properties for which an edge of the type leads from the source node to that node.
pub out_neighbors_iff :
    (src_label : String) (src_key : Dict String String) (rel_type : String) (s : Store)
    (p : Props × Props)
    → NodupKeys s.edges
    → In p (out_neighbors src_label src_key rel_type s)
      ↔ Linked (node_key src_label src_key) rel_type s.nodes s.edges p
unfolding out_neighbors
out_neighbors_iff src_label src_key rel_type s p once = (
  neighbors_among-Linked (node_key src_label src_key) rel_type s.nodes s.edges p once,
  λ (i, found, leads).
      In-neighbors_among (node_key src_label src_key) rel_type s.nodes s.edges p i found leads,
)
