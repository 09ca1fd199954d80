-- ===== src/Ingestion/Source.antt =====
-- ingestion/source.py: work items, raw artifacts and the contract of a source.
-- The payload's type `P` is the connector's own, and so is the state `S` that `fetch` works on.
use margin_mvp.Base.{String, List}
use margin_mvp.Base.Dict.{Dict}
use margin_mvp.Base.Exec.{Exec, Result}
use margin_mvp.Ingestion.Ir.{ParsedBundle}

pub record WorkItem : Type 0 where
  pub item_id : String
  pub source_ref : String
  pub artifact_type : String
  pub metadata : Dict String String

pub record RawArtifact (P : Type 0) : Type 0 where
  pub item_id : String
  pub source_ref : String
  pub artifact_type : String
  pub payload : P
  pub fetched_at : String

pub record Source (S P : Type 0) : Type 0 where
  pub discover : List WorkItem
  pub fetch : WorkItem → Exec S (RawArtifact P)
  pub parse : RawArtifact P → Result ParsedBundle
