-- ===== src/Graph/Neo4j/Backend.antt =====
-- graph/store.py: `Neo4jGraphStore` over a driver. Each operation checks its names and makes its text
-- before it opens a session.
use margin_mvp.Base.{String, Option, none, some, List, [], ◌∷◌, map, ◌<>◌, string_eq}
use margin_mvp.Base.Dict.{Dict, keys, insert, update}
use margin_mvp.Base.Exec.{Exec, Result, ok, err, lift, for_each, pure, ◌>>=◌}
use margin_mvp.Base.Result
use margin_mvp.Value.{set, Props, text_value}
use margin_mvp.Graph.Model.{Constraint}
use margin_mvp.Graph.Store.{union}
use margin_mvp.Graph.Protocol.{GraphStore}
use margin_mvp.Graph.Neo4j.{
  constraint_texts, upsert_node_text, upsert_edge_text, get_node_text, out_neighbors_text,
  nodes_by_label_text,
}
use margin_mvp.Graph.Neo4j.Driver.{Driver, Params, value, properties}

pub record Neo4jGraphStore (d : Driver) : Type 0 where
  pub conn : d.Conn
  pub database : String

-- `{f"{prefix}{k}": v for k, v in props.items()}`
unfoldable pub prefixed : String → Dict String String → Params
prefixed prefix = map (λ (k, v). (prefix <> k, value (text_value v)))

-- `{**key_props, "set_props": set_props}`
unfoldable pub upsert_node_params : Dict String String → Props → Params
upsert_node_params key_props set_props =
    insert "set_props" (properties set_props) (map (λ (k, v). (k, value (text_value v))) key_props)

unfoldable pub upsert_edge_params :
    Dict String String → Dict String String → Dict String String → Props → Params
unfolding prefixed
upsert_edge_params src_key dst_key key_props set_props =
    let params : Params = ("set_props", properties set_props) ∷ [] in
    let with_src : Params = update params (prefixed "s_" src_key) in
    let with_dst : Params = update with_src (prefixed "d_" dst_key) in
    update with_dst (prefixed "r_" key_props)

-- `**key_props`
unfoldable pub key_params : Dict String String → Params
key_params = map (λ (k, v). (k, value (text_value v)))

module _ (d : Driver) where
  unfoldable pub open_store : String → String × String → String → Result (Neo4jGraphStore d)
  open_store uri auth database =
      Result.bind (d.driver uri auth) λ conn. ok (record { conn = conn; database = database })

  unfoldable pub close : Neo4jGraphStore d → Neo4jGraphStore d
  close s = record s { conn = d.close s.conn }

  -- `with self._driver.session(database=self._database) as s: body(s)`
  unfoldable pub with_session :
      {A : Type 0} → (d.Session → Exec d.Conn A) → Exec (Neo4jGraphStore d) A
  with_session body s =
      let (opened, c) = d.session s.database s.conn in
      elim opened [
        | ok session ↦ let (r, c') = body session c in (r, record s { conn = d.end session c' })
        | err e ↦ (err e, record s { conn = c })
      ]

  -- a query whose result is not read
  unfoldable pub execute : d.Session → String → Params → Exec d.Conn (Unit {0})
  execute session cypher params = d.run session cypher params >>= λ _. pure tt

  -- `props = dict(rec[key]); props["_labels"] = set(rec["labels"])`
  unfoldable pub node_from : String → d.Record → Result Props
  unfolding union
  node_from key rec = Result.bind (d.entity rec key) λ props.
      Result.bind (d.names rec "labels")
        λ labels. ok (insert "_labels" (set (union [] labels)) props)

  unfoldable pub nodes_from : List d.Record → Result (List Props)
  unfolding node_from
  nodes_from [] = ok []
  nodes_from (rec ∷ records) =
      Result.bind (node_from "n" rec)
        λ props. Result.bind (nodes_from records) λ out. ok (props ∷ out)

  unfoldable pub neighbors_from : List d.Record → Result (List (Props × Props))
  unfolding node_from
  neighbors_from [] = ok []
  neighbors_from (rec ∷ records) = Result.bind (node_from "d" rec) λ node.
      Result.bind (d.entity rec "r")
        λ rel. Result.bind (neighbors_from records) λ out. ok ((node, rel) ∷ out)

  unfoldable pub single_from : Option d.Record → Result (Option Props)
  unfolding node_from
  single_from none = ok none
  single_from (some rec) = Result.bind (node_from "n" rec) λ props. ok (some props)

  unfoldable pub ensure_constraints : List Constraint → Exec (Neo4jGraphStore d) (Unit {0})
  ensure_constraints constraints = lift (constraint_texts constraints) >>= λ stmts.
      with_session λ session. for_each stmts λ stmt. execute session stmt []

  unfoldable pub upsert_node :
      String → Dict String String → Props → List String → Exec (Neo4jGraphStore d) (Unit {0})
  upsert_node base_label key_props set_props extra_labels =
      lift (upsert_node_text base_label (keys key_props) extra_labels) >>= λ cypher.
      with_session λ session. execute session cypher (upsert_node_params key_props set_props)

  unfoldable pub upsert_edge :
      String
      → String
      → Dict String String
      → String
      → Dict String String
      → Dict String String
      → Props
      → Exec (Neo4jGraphStore d) (Unit {0})
  upsert_edge rel_type src_label src_key dst_label dst_key key_props set_props =
      lift (
        upsert_edge_text rel_type src_label (keys src_key) dst_label (keys dst_key)
          (keys key_props))
      >>= λ cypher.
          with_session λ session.
            execute session cypher (upsert_edge_params src_key dst_key key_props set_props)

  unfoldable pub get_node : String → Dict String String → Exec (Neo4jGraphStore d) (Option Props)
  get_node base_label key_props = lift (get_node_text base_label (keys key_props)) >>= λ cypher.
      with_session λ session. d.run session cypher (key_params key_props) >>= λ records.
      lift (single_from (d.single records))

  unfoldable pub out_neighbors :
      String → Dict String String → String → Exec (Neo4jGraphStore d) (List (Props × Props))
  out_neighbors src_label src_key rel_type =
      lift (out_neighbors_text src_label (keys src_key) rel_type) >>= λ cypher.
      with_session λ session.
        d.run session cypher (key_params src_key) >>= λ records. lift (neighbors_from records)

  unfoldable pub nodes_by_label : String → Exec (Neo4jGraphStore d) (List Props)
  nodes_by_label base_label = lift (nodes_by_label_text base_label) >>= λ cypher.
      with_session λ session. d.run session cypher [] >>= λ records. lift (nodes_from records)

  unfoldable pub neo4j_store : GraphStore (Neo4jGraphStore d)
  neo4j_store = record {
    ensure_constraints = ensure_constraints;
    upsert_node = upsert_node;
    upsert_edge = upsert_edge;
    get_node = get_node;
    out_neighbors = out_neighbors;
    nodes_by_label = nodes_by_label;
  }
