-- ===== src/Graph/Client/Read.antt =====
-- The read path, `resolve_column`: the column, the metrics that it measures, and the entities to
-- which each metric applies.
use margin_mvp.Base.{String, Option, none, some, List, [], ◌∷◌, map}
use margin_mvp.Base.Exec.{Result, ok}
use margin_mvp.Base.Result
use margin_mvp.Value.{Props}
use margin_mvp.Graph.Model.{label, column, metric, rel_name, measures, applies_to}
use margin_mvp.Graph.Store.{get_node, out_neighbors}
use margin_mvp.Graph.Client.{Client, column_key}
use margin_mvp.Graph.Client.Aliases.{metric_key_of}

pub record Measured : Type 0 where
  pub metric : Props
  pub applies_to : List Props

pub record ResolvedColumn : Type 0 where
  pub column : Props
  pub metrics : List Measured

unfoldable pub measured : Client → Props → Result Measured
unfolding metric_key_of
measured c m = Result.bind (metric_key_of m) λ k. ok (record {
  metric = m;
  applies_to =
      map (λ (ent, _). ent)
        (out_neighbors (label metric) (("metric_key", k) ∷ []) (rel_name applies_to) c.store);
})

unfoldable pub measured_all : Client → List (Props × Props) → Result (List Measured)
unfolding measured
measured_all c [] = ok []
measured_all c ((m, _) ∷ rest) =
    Result.bind (measured c m) λ first. Result.bind (measured_all c rest) λ more. ok (first ∷ more)

unfoldable pub resolve_column : String → String → String → Client → Result (Option ResolvedColumn)
unfolding measured_all column_key
resolve_column system table name c =
    let col_key = column_key system table name in
    elim (get_node (label column) col_key c.store) [
      | none ↦ ok none
      | some col ↦
          Result.bind
            (measured_all c (out_neighbors (label column) col_key (rel_name measures) c.store))
            λ metrics. ok (some (record { column = col; metrics = metrics }))
    ]
