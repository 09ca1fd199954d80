-- ===== src/Graph/Client/Calls.antt =====
-- A program that uses the client, as the sequence of its writing calls. An exception ends its own
-- call only, and the next call starts from what the failed one has left.
use margin_mvp.Base.{String, ◌≡◌, Bool, Option, none, List, [], ◌∷◌, string_eq}
use margin_mvp.Base.Dict.{lookup}
use margin_mvp.Base.Exec.{Exec}
use margin_mvp.Value.{Props}
use margin_mvp.Graph.Model.{EdgeProvenance}
use margin_mvp.Graph.Client
use margin_mvp.Graph.Client.{Client, MetricArgs, or_empty}
use margin_mvp.Graph.Client.Edges
use margin_mvp.Graph.Client.Aliases

pub data Call : Type 0 where
  init_schema : Call
  register_allowlists : List String → List String → Call
  upsert_entity : String → Option String → Option Props → Call
  upsert_metric : String → MetricArgs → Option Props → Call
  upsert_column : String → String → String → Option String → List String → Bool → Call
  upsert_document : String → Option String → String → Option String → Call
  upsert_benchmark : String → Option Props → Call
  upsert_party : String → Option Props → Call
  link_column_to_metric : String → String → String → String → EdgeProvenance → Call
  link_metric_to_entity link_metric_to_document : String → String → EdgeProvenance → Call
  link_metric_to_benchmark link_metric_computed_from : String → String → EdgeProvenance → Call
  link_document_to_entity : String → String → EdgeProvenance → Call
  link_party_to_entity : String → String → String → EdgeProvenance → Call
  relate_entities : String → String → String → EdgeProvenance → String → Call
  add_metric_alias : String → String → Call

unfoldable pub run : Call → Exec Client (Unit {0})
run init_schema = Client.init_schema
run (register_allowlists subtypes types) = Client.register_allowlists subtypes types
run (upsert_entity uid subtype attrs) = Client.upsert_entity uid subtype attrs
run (upsert_metric key a attrs) = Client.upsert_metric key a attrs
run (upsert_column system table name dtype samples dict) =
    Client.upsert_column system table name dtype samples dict
run (upsert_document uri title body as_of) = Client.upsert_document uri title body as_of
run (upsert_benchmark key attrs) = Client.upsert_benchmark key attrs
run (upsert_party uid attrs) = Client.upsert_party uid attrs
run (link_column_to_metric system table name key prov) =
    Edges.link_column_to_metric system table name key prov
run (link_metric_to_entity key uid prov) = Edges.link_metric_to_entity key uid prov
run (link_metric_to_document key uri prov) = Edges.link_metric_to_document key uri prov
run (link_metric_to_benchmark key bench prov) = Edges.link_metric_to_benchmark key bench prov
run (link_metric_computed_from key from prov) = Edges.link_metric_computed_from key from prov
run (link_document_to_entity uri uid prov) = Edges.link_document_to_entity uri uid prov
run (link_party_to_entity party uid role prov) = Edges.link_party_to_entity party uid role prov
run (relate_entities subject object role prov type) =
    Edges.relate_entities subject object role prov type
run (add_metric_alias key alias) = Aliases.add_metric_alias key alias

unfoldable pub run_all : List Call → Client → Client
run_all [] c = c
run_all (call ∷ calls) c = run_all calls (run call c).1

-- no attribute is named "_labels"
abbrev pub ArePlain : Option Props → Type 0
ArePlain attrs = lookup "_labels" (or_empty attrs) ≡ none

abbrev pub IsPlain : Call → Type 0
IsPlain (upsert_entity _ _ attrs) = ArePlain attrs
IsPlain (upsert_metric _ _ attrs) = ArePlain attrs
IsPlain (upsert_benchmark _ attrs) = ArePlain attrs
IsPlain (upsert_party _ attrs) = ArePlain attrs
IsPlain _ = Unit
