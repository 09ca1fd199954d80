-- ===== src/Ingestion/Pipeline/Repeatable.antt =====
-- ingestion/pipeline.py: the calls of a bundle can be made twice.
use margin_mvp.Base.{String, Option, none, some, List, [], ◌∷◌, string_eq, pair_eq}
use margin_mvp.Base.Lists.{All, All-of, All-map, All-append}
use margin_mvp.Base.Dict.{Dict, lookup}
use margin_mvp.Graph.Model.{EdgeProvenance}
use margin_mvp.Graph.Client.Calls
use margin_mvp.Graph.Client.Calls.{Call, IsPlain}
use margin_mvp.Graph.Client.Twice.{IsRepeatable}
use margin_mvp.Ingestion.Ir.{ObservedColumn, ObservedDocument, ObservedEntity, ParsedBundle}
use margin_mvp.Ingestion.Pipeline.{ColumnKey, column_key, link_target}
use margin_mvp.Ingestion.Pipeline.Loading.{Plain}
use margin_mvp.Ingestion.Pipeline.Recorded.{calls_of}
use margin_mvp.Ingestion.Pipeline.Records.{
  document_calls, column_call, entity_calls, relation_call, record_calls, owner_calls, link_calls,
}
use margin_mvp.Resolver.Funnel.{Resolution}

abbrev pub Good : Call → Type 0
Good call = IsPlain call × IsRepeatable call

calls_of-Good :
    {A : Type 0} (f : A → List Call) (xs : List A)
    → All (λ x. All Good (f x)) xs
    → All Good (calls_of f xs)
calls_of-Good f [] h = tt
calls_of-Good f (x ∷ xs) (h, hs) = All-append Good (f x) (calls_of f xs) h (calls_of-Good f xs hs)

-- of calls that are good whatever they are made for
calls_of-Good_always :
    {A : Type 0} (f : A → List Call) (xs : List A)
    → ((x : A) → All Good (f x))
    → All Good (calls_of f xs)
calls_of-Good_always f xs h = calls_of-Good f xs (All-of _ h xs)

document-Good :
    (prov : EdgeProvenance) (doc : ObservedDocument) → All Good (document_calls prov doc)
document-Good prov doc =
    let describe : String → List Call =
      λ uid. Calls.link_document_to_entity doc.uri uid prov ∷ [] in
    let define : String → List Call = λ key. Calls.link_metric_to_document key doc.uri prov ∷ [] in
    (
      (tt, tt),
      All-append Good (calls_of describe doc.describes) (calls_of define doc.defines)
          (calls_of-Good_always describe doc.describes (λ uid. ((tt, tt), tt)))
          (calls_of-Good_always define doc.defines (λ key. ((tt, tt), tt))),
    )

columns-Good : (cols : List ObservedColumn) → All Good (calls_of column_call cols)
columns-Good cols = calls_of-Good_always column_call cols (λ col. ((tt, tt), tt))

entity-Good :
    (allowed : List String) (ent : ObservedEntity) → Plain ent → All Good (entity_calls allowed ent)
entity-Good allowed ent plain = ((plain, tt), columns-Good ent.columns)

owner-Good :
    (prov : EdgeProvenance) (key : String) (owner : Option String)
    → All Good (owner_calls prov key owner)
owner-Good prov key none = tt
owner-Good prov key (some owner) = ((tt, tt), tt)

link-Good :
    (prov : EdgeProvenance) (owners : Dict ColumnKey String) (col : ObservedColumn)
    (target : Option String)
    → All Good (link_calls prov owners col target)
link-Good prov owners col none = tt
link-Good prov owners col (some key) =
    ((tt, tt), owner-Good prov key (lookup (column_key col) owners))

pub links-Good :
    (prov : EdgeProvenance) (owners : Dict ColumnKey String) (outcome : ObservedColumn → Resolution)
    (cols : List ObservedColumn)
    → All Good (calls_of (λ col. link_calls prov owners col (link_target (outcome col))) cols)
links-Good prov owners outcome cols =
    calls_of-Good_always _ cols (λ col. link-Good prov owners col (link_target (outcome col)))

pub records-Good :
    (allowed : List String) (prov : EdgeProvenance) (b : ParsedBundle)
    → All Plain b.entities
    → All Good (record_calls allowed prov b)
records-Good allowed prov b plain =
    All-append Good (calls_of (document_calls prov) b.documents) _
      (calls_of-Good_always (document_calls prov) b.documents (document-Good prov))
      (All-append Good (calls_of column_call b.columns) _ (columns-Good b.columns) (
        All-append Good (calls_of (entity_calls allowed) b.entities) _
          (calls_of-Good (entity_calls allowed) b.entities
            (All-map b.entities (entity-Good allowed) plain))
          (calls_of-Good_always (relation_call prov) b.relations (λ rel. ((tt, tt), tt)))))
