-- ===== src/Graph/Protocol.antt =====
-- graph/store.py: the protocol `GraphStore`, as a record of operations on a state, and the in-memory
-- store as one.
use margin_mvp.Base.{String, List, Option}
use margin_mvp.Base.Dict.{Dict}
use margin_mvp.Base.Exec.{Exec, gets}
use margin_mvp.Value.{Props}
use margin_mvp.Graph.Model.{Constraint}
use margin_mvp.Graph.Store.{Store}
use margin_mvp.Graph.Store

pub record GraphStore (S : Type 0) : Type 0 where
  pub ensure_constraints : List Constraint → Exec S (Unit {0})
  pub upsert_node : String → Dict String String → Props → List String → Exec S (Unit {0})
  pub upsert_edge :
      String
      → String
      → Dict String String
      → String
      → Dict String String
      → Dict String String
      → Props
      → Exec S (Unit {0})
  pub get_node : String → Dict String String → Exec S (Option Props)
  pub out_neighbors : String → Dict String String → String → Exec S (List (Props × Props))
  pub nodes_by_label : String → Exec S (List Props)

unfoldable pub memory_store : GraphStore Store
unfolding gets
memory_store = record {
  ensure_constraints = Store.ensure_constraints;
  upsert_node = Store.upsert_node;
  upsert_edge = Store.upsert_edge;
  get_node = λ base_label key_props. gets (Store.get_node base_label key_props);
  out_neighbors =
      λ src_label src_key rel_type. gets (Store.out_neighbors src_label src_key rel_type);
  nodes_by_label = λ base_label. gets (Store.nodes_by_label base_label);
}

-- one call of a store, and the type of its reply
pub data Request : Type 0 where
  ensure_constraints : List Constraint → Request
  upsert_node : String → Dict String String → Props → List String → Request
  upsert_edge :
      String
      → String
      → Dict String String
      → String
      → Dict String String
      → Dict String String
      → Props
      → Request
  get_node : String → Dict String String → Request
  out_neighbors : String → Dict String String → String → Request
  nodes_by_label : String → Request

abbrev pub Reply : Request → Type 0
Reply (get_node _ _) = Option Props
Reply (out_neighbors _ _ _) = List (Props × Props)
Reply (nodes_by_label _) = List Props
Reply _ = Unit {0}

unfoldable pub perform : {S : Type 0} → GraphStore S → (r : Request) → Exec S (Reply r)
perform g (ensure_constraints constraints) = g.ensure_constraints constraints
perform g (upsert_node base_label key_props set_props extra_labels) =
    g.upsert_node base_label key_props set_props extra_labels
perform g (upsert_edge rel_type src_label src_key dst_label dst_key key_props set_props) =
    g.upsert_edge rel_type src_label src_key dst_label dst_key key_props set_props
perform g (get_node base_label key_props) = g.get_node base_label key_props
perform g (out_neighbors src_label src_key rel_type) = g.out_neighbors src_label src_key rel_type
perform g (nodes_by_label base_label) = g.nodes_by_label base_label
