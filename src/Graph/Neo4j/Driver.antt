-- ===== src/Graph/Neo4j/Driver.antt =====
-- graph/store.py: what `Neo4jGraphStore` uses of the `neo4j` package, as parameters.
use margin_mvp.Base.{String, Option, List}
use margin_mvp.Base.Dict.{Dict}
use margin_mvp.Base.Exec.{Exec, Result}
use margin_mvp.Value.{Value, Props}

-- the value of a query parameter
pub data Param : Type 0 where
  value : Value → Param
  properties : Props → Param

abbrev pub Params : Type 0
Params = Dict String Param

-- `Conn` is the state of a driver with the service behind it, `Record` a row of a result.
pub record Driver : Type 1 where
  pub Conn : Type 0
  pub Session : Type 0
  pub Record : Type 0
  -- `GraphDatabase.driver(uri, auth=auth)`
  pub driver : String → String × String → Result Conn
  -- `driver.close()`
  pub close : Conn → Conn
  -- `driver.session(database=...)`, and leaving its `with`
  pub session : String → Exec Conn Session
  pub end : Session → Conn → Conn
  -- `session.run(cypher, **params)`, with all the records of the result
  pub run : Session → String → Params → Exec Conn (List Record)
  -- `result.single()`
  pub single : List Record → Option Record
  -- `dict(record[key])` and `record[key]` for a list of names
  pub entity : Record → String → Result Props
  pub names : Record → String → Result (List String)
