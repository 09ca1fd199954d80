-- ===== src/Graph/Client/ReadPath.antt =====
-- graph/client.py: `resolve_column` and its specification.
use margin_mvp.Base.{
  String, ◌≡◌, refl, sym, subst, ◌↔◌, ◌⊎◌, inl, inr, none, some, List, [], ◌∷◌, map, string_eq,
  Option-cases,
}
use margin_mvp.Base.Lists.{All, In, In-map_iff, All_of_In}
use margin_mvp.Base.Dict.{Dict, NodupKeys}
use margin_mvp.Base.Exec.{ok}
use margin_mvp.Value.{Props}
use margin_mvp.Graph.Model.{label, column, metric, rel_name, measures, applies_to}
use margin_mvp.Graph.Store.{get_node, out_neighbors}
use margin_mvp.Graph.Store.Key.{node_key, edge_ident_eq}
use margin_mvp.Graph.Store.Neighbors.{Linked, out_neighbors_iff}
use margin_mvp.Graph.Client.{Client, column_key}
use margin_mvp.Graph.Client.Aliases.{metric_key_of}
use margin_mvp.Graph.Client.Read.{Measured, ResolvedColumn, measured, measured_all, resolve_column}

-- the node's `metric_key` can be read
abbrev pub HasKey : Props → Type 0
HasKey node = (k : String) × (metric_key_of node ≡ ok k)

-- an edge of the type leads from the node of the key to `node`
abbrev pub LeadsTo : Client → String → Dict String String → String → Props → Type 0
LeadsTo c src_label src_key rel_type node =
    (e : Props) × Linked (node_key src_label src_key) rel_type c.store.nodes c.store.edges (node, e)

-- its entities are the ones to which an APPLIES_TO edge leads from its metric
abbrev pub HasEntities : Client → Measured → Type 0
HasEntities c m =
    (k : String) × (metric_key_of m.metric ≡ ok k)
    × ((ent : Props)
        → In ent m.applies_to
          ↔ LeadsTo c (label metric) (("metric_key", k) ∷ []) (rel_name applies_to) ent)

pub neighbors_lem :
    (c : Client) (src_label : String) (src_key : Dict String String) (rel_type : String)
    (node : Props)
    → NodupKeys c.store.edges
    → In node (map (λ (n, _). n) (out_neighbors src_label src_key rel_type c.store))
      ↔ LeadsTo c src_label src_key rel_type node
neighbors_lem c src_label src_key rel_type node once =
    let found = out_neighbors src_label src_key rel_type c.store in
    let (there, back) = In-map_iff (λ ((n, _) : Props × Props). n) node found in
    let exact : (p : Props × Props)
        → In p found ↔ Linked (node_key src_label src_key) rel_type c.store.nodes c.store.edges p =
      λ p. out_neighbors_iff src_label src_key rel_type c.store p once in
    (
      λ h.
          let ((n, e), at, same) = there h in
          (
            e,
            subst
                (λ x.
                  Linked (node_key src_label src_key) rel_type c.store.nodes c.store.edges (x, e))
                (sym same) ((exact (n, e)).0 at),
          ),
      λ (e, linked). back ((node, e), (exact (node, e)).1 linked, refl),
    )

measured_lem :
    (c : Client) (node : Props)
    → NodupKeys c.store.edges
    → HasKey node
    → (m : Measured) × (measured c node ≡ ok m) × (m.metric ≡ node) × HasEntities c m
unfolding measured
measured_lem c node once (k, there) = rw there (
  _,
  refl,
  refl,
  (k, there, λ ent. neighbors_lem c (label metric) _ (rel_name applies_to) ent once),
)

measured_all_lem :
    (c : Client) (found : List (Props × Props))
    → NodupKeys c.store.edges
    → All (λ p. HasKey p.0) found
    → (ms : List Measured) × (measured_all c found ≡ ok ms)
      × (map (λ (m : Measured). m.metric) ms ≡ map (λ (n, _). n) found)
      × All (HasEntities c) ms
unfolding measured_all
measured_all_lem c [] once keyed = ([], refl, refl, tt)
measured_all_lem c ((node, e) ∷ found) once (k, keyed) =
    let (m, first, same, entities) = measured_lem c node once k in
    let (ms, rest, names, all) = measured_all_lem c found once keyed in
    rw (first, rest) (m ∷ ms, refl, cc, (entities, all))

resolve_column_absent :
    (c : Client) (system table name : String)
    → get_node (label column) (column_key system table name) c.store ≡ none
    → resolve_column system table name c ≡ ok none
unfolding resolve_column
resolve_column_absent c system table name h = rw (h, resolve_column) refl

resolve_column_found :
    (c : Client) (system table name : String) (col : Props) (ms : List Measured)
    → get_node (label column) (column_key system table name) c.store ≡ some col
    → measured_all c
        (out_neighbors (label column) (column_key system table name) (rel_name measures) c.store)
      ≡ ok ms
    → resolve_column system table name c ≡ ok (some (record { column = col; metrics = ms }))
unfolding resolve_column
resolve_column_found c system table name col ms h k = rw (h, resolve_column) (rw k refl)

-- what the read path says of a column: the metrics to which a MEASURES edge leads from it, each with the
-- entities to which an APPLIES_TO edge leads from the metric
pub record Reads (c : Client) (key : Dict String String) (r : ResolvedColumn) : Type 0 where
  pub node : get_node (label column) key c.store ≡ some r.column
  pub metrics :
      (m : Props)
      → In m (map (λ (x : Measured). x.metric) r.metrics)
        ↔ LeadsTo c (label column) key (rel_name measures) m
  pub entities : All (HasEntities c) r.metrics

-- GraphClient.resolve_column, on a store that lists each edge once, for a column whose measured metrics have a
-- metric_key that can be read: where the column is no node it returns None, and else it returns the
-- column's node with exactly the metrics to which a MEASURES edge leads from it, and for each of them
-- exactly the entities to which an APPLIES_TO edge leads from the node of its metric_key.
pub resolve_column_lem :
    (c : Client) (system table name : String)
    → NodupKeys c.store.edges
    → ((m : Props)
        → LeadsTo c (label column) (column_key system table name) (rel_name measures) m
        → HasKey m)
    → ((get_node (label column) (column_key system table name) c.store ≡ none)
        × (resolve_column system table name c ≡ ok none))
      ⊎ ((r : ResolvedColumn) × (resolve_column system table name c ≡ ok (some r))
          × Reads c (column_key system table name) r)
resolve_column_lem c system table name once keyed =
    let key = column_key system table name in
    let found = out_neighbors (label column) key (rel_name measures) c.store in
    elim (Option-cases (get_node (label column) key c.store)) [
      | inl h ↦ inl (h, resolve_column_absent c system table name h)
      | inr (col, h) ↦
          let reads : (m : Props)
              → In m (map (λ (n, _). n) found)
                ↔ LeadsTo c (label column) key (rel_name measures) m =
            λ m. neighbors_lem c (label column) key (rel_name measures) m once in
          let all : All (λ ((n, e) : Props × Props). HasKey n) found = All_of_In _ found (λ p there.
            keyed p.0 (
              (reads p.0).0
                ((In-map_iff (λ ((n, _) : Props × Props). n) p.0 found).1 (p, there, refl)))) in
          let (ms, read, names, entities) = measured_all_lem c found once all in
          inr (
            record { column = col; metrics = ms },
            resolve_column_found c system table name col ms h read,
            record { node = h; metrics = λ m. rw names (reads m); entities = entities },
          )
    ]
