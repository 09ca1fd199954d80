-- ===== src/Resolver/Funnel.antt =====
-- resolver/funnel.py: the funnel and its escalation queue.
-- The resolver and the pipeline write to one client, so the client is part of the state. The number
-- of alternatives is not negative, and the threshold is in ten-thousandths, as scores are.
use margin_mvp.Base.{
  ℕ, String, Option, none, some, List, [], ◌∷◌, ◌++◌, string_eq, if◌then◌else◌, leb,
}
use margin_mvp.Base.Dict.{lookup}
use margin_mvp.Base.Exec.{Exec, ok, err, ◌>>=◌, ◌>>◌}
use margin_mvp.Base.Lists.{take}
use margin_mvp.Base.Text.{casefold}
use margin_mvp.Graph.Model.{EdgeProvenance}
use margin_mvp.Graph.Client.{Client}
use margin_mvp.Graph.Client.Edges.{link_column_to_metric}
use margin_mvp.Graph.Client.Aliases.{metric_aliases, metric_terms, add_metric_alias}
use margin_mvp.Ingestion.Ir.{ObservedColumn}
use margin_mvp.Resolver.Suggest.{Suggestion, Suggester}

pub data Tier : Type 0 where
  auto_linked suggested escalated documented : Tier

pub record Resolution : Type 0 where
  pub column : ObservedColumn
  pub tier : Tier
  pub metric_key : Option String
  pub score : ℕ
  pub alternatives : List Suggestion

-- `Resolver(...)` but for its client and queue
pub record Config : Type 0 where
  pub suggester : Suggester
  pub threshold : ℕ
  pub top_k : ℕ

pub record World : Type 0 where
  pub client : Client
  pub queue : List Resolution

abbrev pub perfect_score : ℕ
perfect_score = 10000

-- a call of the client
unfoldable pub on_client {ℓ} : {A : Type ℓ} → Exec Client A → Exec World A
on_client m w = let (r, c) = m w.client in (r, record w { client = c })

unfoldable pub enqueue : Resolution → Exec World (Unit {0})
enqueue resolution w = (ok tt, record w { queue = w.queue ++ resolution ∷ [] })

abbrev pub linked_to : ObservedColumn → String → Resolution
linked_to column metric_key = record {
  column = column;
  tier = auto_linked;
  metric_key = some metric_key;
  score = perfect_score;
  alternatives = [];
}

abbrev pub documented_as : ObservedColumn → Resolution
documented_as column = record {
  column = column;
  tier = documented;
  metric_key = none;
  score = 0;
  alternatives = [];
}

abbrev pub escalation : ObservedColumn → List Suggestion → Resolution
escalation column suggestions = record {
  column = column;
  tier = escalated;
  metric_key = none;
  score = 0;
  alternatives = suggestions;
}

abbrev pub suggestion_of : ObservedColumn → Suggestion → List Suggestion → Resolution
suggestion_of column top suggestions = record {
  column = column;
  tier = suggested;
  metric_key = some top.metric_key;
  score = top.score;
  alternatives = suggestions;
}

unfoldable pub escalate : ObservedColumn → List Suggestion → Exec World Resolution
unfolding enqueue
escalate column suggestions w =
    (ok (escalation column suggestions), (enqueue (escalation column suggestions) w).1)

-- tiers 2 and 3, given the candidates
unfoldable pub suggest_or_escalate : ℕ → ObservedColumn → List Suggestion → Exec World Resolution
unfolding escalate
suggest_or_escalate threshold column [] w = escalate column [] w
suggest_or_escalate threshold column (top ∷ rest) w =
    if leb threshold top.score
    then (ok (suggestion_of column top (top ∷ rest)), w)
    else escalate column (top ∷ rest) w

module _ (config : Config) where
  -- tiers 0, 2 and 3: no alias has the column's name
  unfoldable pub resolve_unmatched : ObservedColumn → Exec World Resolution
  unfolding suggest_or_escalate
  resolve_unmatched column w =
      if column.has_dictionary
      then (ok (documented_as column), w)
      else elim (metric_terms w.client) [
        | err e ↦ (err e, w)
        | ok terms ↦ elim (config.suggester column terms) [
          | err e ↦ (err e, w)
          | ok ranked ↦ suggest_or_escalate config.threshold column (take config.top_k ranked) w
        ]
      ]

  unfoldable pub resolve : ObservedColumn → Exec World Resolution
  unfolding resolve_unmatched
  resolve column w = elim (metric_aliases w.client) [
    | err e ↦ (err e, w)
    | ok index ↦ elim (lookup (casefold column.name) index) [
      | some hit ↦ (ok (linked_to column hit), w)
      | none ↦ resolve_unmatched column w
    ]
  ]

unfoldable pub confirm : ObservedColumn → String → EdgeProvenance → Exec World (Unit {0})
unfolding on_client ◌>>=◌
confirm column metric_key prov = do
  on_client (link_column_to_metric column.system column.table column.name metric_key prov)
  on_client (add_metric_alias metric_key (casefold column.name))
