-- ===== src/Ingestion/Pipeline/Loading.antt =====
-- ingestion/pipeline.py: the writes of `load_bundle`.
use margin_mvp.Base.{pair_eq, ◌≡◌, none, some, string_eq}
use margin_mvp.Base.Lists.{All}
use margin_mvp.Base.Dict.{lookup}
use margin_mvp.Graph.Client.Calls.{Call, run, IsPlain}
use margin_mvp.Graph.Client.Calls
use margin_mvp.Graph.Client.Steps.{IsSound}
use margin_mvp.Graph.Client.Safety.{run-IsSound}
use margin_mvp.Ingestion.Ir.{ObservedEntity, ParsedBundle}
use margin_mvp.Ingestion.Pipeline.{load_bundle}
use margin_mvp.Ingestion.Pipeline.Writes.{IsQuiet, load_bundle-Keeps}
use margin_mvp.Resolver.Funnel.{Config, World}

-- no attribute of the entity is named "_labels"
abbrev pub Plain : ObservedEntity → Type 0
Plain ent = lookup "_labels" ent.attributes ≡ none

IsPlain-of-IsQuiet : (call : Call) → IsQuiet call → IsPlain call
IsPlain-of-IsQuiet Calls.init_schema h = tt
IsPlain-of-IsQuiet (Calls.register_allowlists _ _) h = tt
IsPlain-of-IsQuiet (Calls.upsert_entity _ _ _) h = elim h [ ]
IsPlain-of-IsQuiet (Calls.upsert_metric _ _ _) h = elim h [ ]
IsPlain-of-IsQuiet (Calls.upsert_column _ _ _ _ _ _) h = tt
IsPlain-of-IsQuiet (Calls.upsert_document _ _ _ _) h = tt
IsPlain-of-IsQuiet (Calls.upsert_benchmark _ _) h = elim h [ ]
IsPlain-of-IsQuiet (Calls.upsert_party _ _) h = elim h [ ]
IsPlain-of-IsQuiet (Calls.link_column_to_metric _ _ _ _ _) h = tt
IsPlain-of-IsQuiet (Calls.link_metric_to_entity _ _ _) h = tt
IsPlain-of-IsQuiet (Calls.link_metric_to_document _ _ _) h = tt
IsPlain-of-IsQuiet (Calls.link_metric_to_benchmark _ _ _) h = tt
IsPlain-of-IsQuiet (Calls.link_metric_computed_from _ _ _) h = tt
IsPlain-of-IsQuiet (Calls.link_document_to_entity _ _ _) h = tt
IsPlain-of-IsQuiet (Calls.link_party_to_entity _ _ _ _) h = tt
IsPlain-of-IsQuiet (Calls.relate_entities _ _ _ _ _) h = tt
IsPlain-of-IsQuiet (Calls.add_metric_alias _ _) h = tt

-- load_bundle, whether it returns or raises, for a bundle whose entities have no attribute named "_labels": a
-- sound client (labels and edge types allow-listed, edges with provenance) stays sound.
pub load_bundle-IsSound :
    (config : Config) (b : ParsedBundle) (w : World)
    → All Plain b.entities
    → IsSound w.client
    → IsSound (load_bundle config b w).1.client
unfolding run
load_bundle-IsSound config b w plain h =
    load_bundle-Keeps IsSound Plain (λ call q c. run-IsSound call c (IsPlain-of-IsQuiet call q))
      (λ ent fits subtype c.
        run-IsSound (Calls.upsert_entity ent.uid subtype (some ent.attributes)) c fits)
      config b plain w h
