-- ===== src/Tests/Neo4j.antt =====
-- Instances of the theorems on `Neo4jGraphStore`, over a driver that counts its sessions and keeps what
-- it is sent.
use margin_mvp.Base.{
  ℕ, ◌+◌, ◌-◌, String, ◌<>◌, ◌≡◌, refl, ◌⊎◌, Bool, true, false, Option, none, some, List, [], ◌∷◌,
  ◌++◌, string_eq, arith, if◌then◌else◌, ◌==◌,
}
use margin_mvp.Base.Lists.{All}
use margin_mvp.Base.Dict.{Dict, lookup}
use margin_mvp.Base.Exec.{Error, ok, err, external_error}
use margin_mvp.Graph.Protocol.{Request, upsert_node, perform}
use margin_mvp.Graph.Neo4j.Driver.{Driver, properties}
use margin_mvp.Graph.Neo4j.Backend.{Neo4jGraphStore, neo4j_store, upsert_edge_params}
use margin_mvp.Graph.Neo4j.Identifiers.{Safe}
use margin_mvp.Graph.Neo4j.Guards.{names, Untouched, perform-IsGuarded}
use margin_mvp.Graph.Neo4j.Sessions.{Counts, perform-AllClosed}
use margin_mvp.Graph.Neo4j.Params.{bound, lookup-upsert_edge_params}
use margin_mvp.Tests.Data.{w1, w2, red, widget}

record Recorder : Type 0 where
  open_sessions : ℕ
  sent : List String

-- a driver that has no database without a name
abbrev recording : Driver
recording = record {
  Conn = Recorder;
  Session = Unit {0};
  Record = Unit {0};
  driver = λ uri auth. ok (record { open_sessions = 0; sent = [] });
  close = λ c. c;
  session = λ database c.
      if database == ""
      then (err (external_error "no database"), c)
      else (ok tt, record c { open_sessions = c.open_sessions + 1 });
  end = λ session c. record c { open_sessions = c.open_sessions - 1 };
  run = λ session cypher params c. (ok [], record c { sent = c.sent ++ cypher ∷ [] });
  single = λ records. none;
  entity = λ rec key. ok [];
  names = λ rec key. ok [];
}

opens_one :
    (database : String) (c : Recorder) (session : Unit {0})
    → c.open_sessions ≡ 0
    → (recording.session database c).0 ≡ ok session
    → (recording.session database c).1.open_sessions ≡ 1
opens_one database c session idle opened = ground arith

opens_none :
    (database : String) (c : Recorder) (e : Error)
    → c.open_sessions ≡ 0
    → (recording.session database c).0 ≡ err e
    → (recording.session database c).1.open_sessions ≡ 0
opens_none database c e idle refused = ground arith

closes_one : (c : Recorder) → c.open_sessions ≡ 1 → c.open_sessions - 1 ≡ 0
closes_one c busy = omega arith

abbrev recording_counts : Counts recording
recording_counts = record {
  Idle = λ c. c.open_sessions ≡ 0;
  Busy = λ session c. c.open_sessions ≡ 1;
  opens = opens_one;
  refuses = opens_none;
  runs = λ session cypher params c busy. busy;
  ends = λ session c busy. closes_one c busy;
}

abbrev backend : Neo4jGraphStore recording
backend = record { conn = record { open_sessions = 0; sent = [] }; database = "neo4j" }

abbrev upsert_w1 : Request
upsert_w1 = upsert_node "Entity" w1 red widget

-- the text that is sent
sent_w1 :
    (perform (neo4j_store recording) upsert_w1 backend).1.conn.sent
    ≡ "MERGE (n:Entity {uid: $uid}) SET n += $set_props SET n:Widget" ∷ []
unfolding perform neo4j_store margin_mvp.Graph.Neo4j.Backend.upsert_node margin_mvp.Base.Exec.◌>>=◌
    margin_mvp.Graph.Neo4j.upsert_node_text margin_mvp.Graph.Neo4j.is_start
    margin_mvp.Graph.Neo4j.tail_matches margin_mvp.Graph.Neo4j.is_part margin_mvp.Base.Dict.keys
    margin_mvp.Graph.Neo4j.Backend.with_session string_eq margin_mvp.Graph.Neo4j.Backend.execute
sent_w1 = refl

perform-AllClosed_example :
    (perform (neo4j_store recording) upsert_w1 backend).1.conn.open_sessions ≡ 0
perform-AllClosed_example = perform-AllClosed recording recording_counts upsert_w1 backend refl

-- a label that is no identifier
abbrev injected : Request
injected = upsert_node "Entity) DETACH DELETE (m" w1 red widget

perform-IsGuarded_example :
    All Safe (names injected)
    ⊎ Untouched (names injected) (perform (neo4j_store recording) injected) backend
perform-IsGuarded_example = perform-IsGuarded recording injected backend

abbrev role : Dict String String
role = ("role", "part") ∷ []

lookup-upsert_edge_params_example :
    (lookup ("s_" <> "uid") (upsert_edge_params w1 w2 role red) ≡ bound (lookup "uid" w1))
    × (lookup ("d_" <> "uid") (upsert_edge_params w1 w2 role red) ≡ bound (lookup "uid" w2))
    × (lookup ("r_" <> "uid") (upsert_edge_params w1 w2 role red) ≡ bound (lookup "uid" role))
    × (lookup "set_props" (upsert_edge_params w1 w2 role red) ≡ some (properties red))
unfolding lookup string_eq
lookup-upsert_edge_params_example =
    lookup-upsert_edge_params w1 w2 role red (refl, tt) (refl, tt) (refl, tt) "uid"
