-- ===== src/Graph/Neo4j/Sessions.antt =====
-- graph/store.py: the sessions that `Neo4jGraphStore` opens, and their `with` blocks.
use margin_mvp.Base.{String, ◌≡◌, inl, inr, List, []}
use margin_mvp.Base.Lists.{All-of}
use margin_mvp.Base.Exec.{Exec, Result, Error, ok, err, lift, pure, ◌>>=◌}
use margin_mvp.Base.Result.{Result-cases}
use margin_mvp.Base.Loops.{Keeps, bind-Keeps, lift-Keeps, for_each-Keeps}
use margin_mvp.Graph.Protocol.{Request, perform}
use margin_mvp.Graph.Protocol.Request.{
  ensure_constraints, upsert_node, upsert_edge, get_node, out_neighbors, nodes_by_label,
}
use margin_mvp.Graph.Neo4j.Backend
use margin_mvp.Graph.Neo4j.Driver.{Driver, Params}
use margin_mvp.Graph.Neo4j.Backend.{
  Neo4jGraphStore, with_session, execute, neo4j_store, nodes_from, neighbors_from, single_from,
}

-- A count of the open sessions of a driver, by two predicates on its state: none is open, and this one
-- alone is. Opening leads from the first to the second, or fails and opens none; a query, also one
-- that fails, opens and closes none; leaving the `with` closes the session.
pub record Counts (d : Driver) : Type 1 where
  pub Idle : d.Conn → Type 0
  pub Busy : d.Session → d.Conn → Type 0
  pub opens :
      (database : String) (c : d.Conn) (session : d.Session)
      → Idle c
      → (d.session database c).0 ≡ ok session
      → Busy session (d.session database c).1
  pub refuses :
      (database : String) (c : d.Conn) (e : Error)
      → Idle c
      → (d.session database c).0 ≡ err e
      → Idle (d.session database c).1
  pub runs :
      (session : d.Session) (cypher : String) (params : Params) (c : d.Conn)
      → Busy session c
      → Busy session (d.run session cypher params c).1
  pub ends : (session : d.Session) (c : d.Conn) → Busy session c → Idle (d.end session c)

module _ (d : Driver) (t : Counts d) where
  abbrev AllClosed : Neo4jGraphStore d → Type 0
  AllClosed s = t.Idle s.conn

  with_session-Keeps :
      {A : Type 0} (body : d.Session → Exec d.Conn A)
      → ((session : d.Session) → Keeps (t.Busy session) (body session))
      → Keeps AllClosed (with_session d body)
  unfolding with_session
  with_session-Keeps body busy s h = elim (Result-cases (d.session s.database s.conn).0) [
    | inl (session, opened) ↦
        rw (opened, with_session)
          (t.ends session _ (busy session _ (t.opens s.database s.conn session h opened)))
    | inr (e, failed) ↦ rw (failed, with_session) (t.refuses s.database s.conn e h failed)
  ]

  execute-Keeps :
      (session : d.Session) (cypher : String) (params : Params)
      → Keeps (t.Busy session) (execute d session cypher params)
  unfolding execute pure
  execute-Keeps session cypher params =
      bind-Keeps (t.Busy session) (d.run session cypher params) (λ _. pure tt)
        (t.runs session cypher params) (λ _ c h. h)

  -- a query of which the records are read
  query-Keeps :
      {A : Type 0} (cypher : String) (params : Params) (read : List d.Record → Result A)
      → Keeps AllClosed
          (with_session d λ session. d.run session cypher params >>= λ records. lift (read records))
  unfolding lift
  query-Keeps cypher params read = with_session-Keeps _ (λ session.
      bind-Keeps (t.Busy session) (d.run session cypher params) (λ records. lift (read records))
        (t.runs session cypher params) (λ _ c h. h))

module _ (d : Driver) (t : Counts d) where
  -- Neo4jGraphStore, each of its six operations, over a driver whose open sessions are counted: where no
  -- session is open before the call, none is open after it, whether the call returns or raises, the
  -- checks of the names, the opening of the session and a query being where it may raise.
  pub perform-AllClosed :
      (r : Request) (s : Neo4jGraphStore d)
      → t.Idle s.conn
      → t.Idle (perform (neo4j_store d) r s).1.conn
  unfolding perform neo4j_store Backend.ensure_constraints Backend.upsert_node Backend.upsert_edge
      Backend.get_node Backend.out_neighbors Backend.nodes_by_label
  perform-AllClosed (ensure_constraints constraints) = lift-Keeps (AllClosed d t) _ _ λ stmts _.
      with_session-Keeps d t _ λ session.
        for_each-Keeps (t.Busy session) stmts _
          (All-of _ (λ stmt. execute-Keeps d t session stmt []) stmts)
  perform-AllClosed (upsert_node base_label key_props set_props extra_labels) =
      lift-Keeps (AllClosed d t) _ _
        λ cypher _. with_session-Keeps d t _ λ session. execute-Keeps d t session cypher _
  perform-AllClosed (upsert_edge rel_type src_label src_key dst_label dst_key key_props set_props) =
      lift-Keeps (AllClosed d t) _ _
        λ cypher _. with_session-Keeps d t _ λ session. execute-Keeps d t session cypher _
  perform-AllClosed (get_node base_label key_props) =
      lift-Keeps (AllClosed d t) _ _ λ cypher _. query-Keeps d t cypher _ _
  perform-AllClosed (out_neighbors src_label src_key rel_type) =
      lift-Keeps (AllClosed d t) _ _ λ cypher _. query-Keeps d t cypher _ _
  perform-AllClosed (nodes_by_label base_label) =
      lift-Keeps (AllClosed d t) _ _ λ cypher _. query-Keeps d t cypher _ _
