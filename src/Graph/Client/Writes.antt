-- ===== src/Graph/Client/Writes.antt =====
-- graph/client.py: the writing calls of `GraphClient`, one by one.
use margin_mvp.Base.{
  String, ◌≡◌, refl, inl, inr, ◌⊎◌, true, false, not, ◌&&◌, Option, none, some, List, [], ◌∷◌,
  arith, ◌==◌, contains, string_eq, Bool-cases, ◌∙◌,
}
use margin_mvp.Base.Lists.{All}
use margin_mvp.Base.Exec.{Result, Error, err}
use margin_mvp.Base.Result.{Result-cases}
use margin_mvp.Graph.Store.WellFormed.{Holds-map}
use margin_mvp.Graph.Store.Merge.{contains-union}
use margin_mvp.Base.Lists.{All-map}
use margin_mvp.Base.Dict.{lookup}
use margin_mvp.Base.Dict.Laws.{lookup-update_of_absent}
use margin_mvp.Value.{Value, Props}
use margin_mvp.Graph.Model.{label, entity, RelType, rel_name, related_to, EdgeProvenance}
use margin_mvp.Graph.Store.{union, get_node}
use margin_mvp.Graph.Client
use margin_mvp.Graph.Client.{
  Client, MetricArgs, clean, or_empty, is_unlisted, extra_labels, metric_props, init, metric,
  column, document, party, column_props, document_props,
}
use margin_mvp.Graph.Client.Edges
use margin_mvp.Graph.Client.Edges.{edge}
use margin_mvp.Graph.Client.Aliases
use margin_mvp.Graph.Client.Calls.{ArePlain}
use margin_mvp.Graph.Client.Steps.{
  Done, IsSound, Permitted, lookup-clean_of_absent, node_step, edge_step,
}
use margin_mvp.Graph.Client.Aliases.{current_aliases}
use margin_mvp.Base.{Bool}

pub metric_props_plain :
    (a : MetricArgs) (attrs : Option Props)
    → ArePlain attrs
    → lookup "_labels" (metric_props a attrs) ≡ none
unfolding metric_props
metric_props_plain a attrs plain =
    lookup-update_of_absent "_labels" _ (or_empty attrs) plain ∙ (unfold lookup string_eq in refl)

-- a subtype that passes the test is permitted
extra_labels-Permitted :
    (subtype : Option String) (c : Client)
    → is_unlisted subtype c ≡ false
    → All (Permitted c.entity_subtypes (label entity)) (extra_labels subtype)
unfolding is_unlisted extra_labels label
extra_labels-Permitted none c h = tt
extra_labels-Permitted (some t) c h = elim (Bool-cases (t == "")) [
  | inl e ↦ rw e tt
  | inr n ↦ rw n (inr (refl, ground arith), tt)
]

-- a call that wrote, or that raised before it wrote
abbrev pub Step : Client → Result (Unit {0}) × Client → Type 0
Step c r = Done r ⊎ ((e : Error) × (r ≡ (err e, c)))

-- with a subtype that passes the test it returns
pub upsert_entity-Done :
    (uid : String) (subtype : Option String) (attrs : Option Props) (c : Client)
    → ArePlain attrs
    → is_unlisted subtype c ≡ false
    → IsSound c
    → Done (Client.upsert_entity uid subtype attrs c)
unfolding Client.upsert_entity
upsert_entity-Done uid subtype attrs c plain good h = rw good (
    node_step entity _ _ (extra_labels subtype) c (extra_labels-Permitted subtype c good)
      (lookup-clean_of_absent "_labels" _ plain) h)

pub upsert_entity-Step :
    (uid : String) (subtype : Option String) (attrs : Option Props) (c : Client)
    → ArePlain attrs
    → IsSound c
    → Step c (Client.upsert_entity uid subtype attrs c)
unfolding Client.upsert_entity
upsert_entity-Step uid subtype attrs c plain h = elim (Bool-cases (is_unlisted subtype c)) [
  | inl bad ↦ rw bad (inr (_, refl))
  | inr good ↦ inl (upsert_entity-Done uid subtype attrs c plain good h)
]

pub spine :
    (c : Client) (t : RelType)
    → ((u : RelType) × (rel_name t ≡ rel_name u)) ⊎ (contains c.pack_edge_types (rel_name t) ≡ true)
spine c t = inl (t, refl)

listed_type :
    (c : Client) (rel_type : String)
    → (not (rel_type == rel_name related_to) && not (contains c.pack_edge_types rel_type)) ≡ false
    → ((u : RelType) × (rel_type ≡ rel_name u)) ⊎ (contains c.pack_edge_types rel_type ≡ true)
listed_type c rel_type h = elim (string_eq.dec rel_type (rel_name related_to)) [
  | yes p ↦ inl (related_to, p)
  | no n ↦ inr (ground arith)
]

pub relate_entities-Done :
    (subject object role : String) (prov : EdgeProvenance) (rel_type : String) (c : Client)
    → (not (rel_type == rel_name related_to) && not (contains c.pack_edge_types rel_type)) ≡ false
    → IsSound c
    → Done (Edges.relate_entities subject object role prov rel_type c)
unfolding Edges.relate_entities
relate_entities-Done subject object role prov rel_type c good h =
    rw good (edge_step rel_type entity _ entity _ prov _ c (listed_type c rel_type good) h)

pub relate_entities-Step :
    (subject object role : String) (prov : EdgeProvenance) (rel_type : String) (c : Client)
    → IsSound c
    → Step c (Edges.relate_entities subject object role prov rel_type c)
unfolding Edges.relate_entities
relate_entities-Step subject object role prov rel_type c h =
    elim (Bool-cases
      (not (rel_type == rel_name related_to) && not (contains c.pack_edge_types rel_type))) [
        | inl bad ↦ rw bad (inr (_, refl))
        | inr good ↦ inl (relate_entities-Done subject object role prov rel_type c good h)
      ]

aliases_plain : (v : Value) → lookup {K = String} "_labels" (("aliases", v) ∷ []) ≡ none
unfolding lookup string_eq
aliases_plain v = refl

pub column_plain :
    (dtype : Option String) (samples : List String) (dict : Bool)
    → lookup "_labels" (column_props dtype samples dict) ≡ none
unfolding column_props lookup string_eq
column_plain dtype samples dict = refl

pub document_plain :
    (title : Option String) (body : String) (as_of : Option String)
    → lookup "_labels" (document_props title body as_of) ≡ none
unfolding document_props lookup string_eq
document_plain title body as_of = refl

pub add_metric_alias-Step :
    (key alias : String) (c : Client) → IsSound c → Step c (Aliases.add_metric_alias key alias c)
unfolding Aliases.add_metric_alias
add_metric_alias-Step key alias c h =
    elim (Result-cases
      (current_aliases (get_node (label metric) (("metric_key", key) ∷ []) c.store))) [
        | inl (current, e) ↦
            rw (e, Aliases.add_metric_alias)
              (inl (node_step metric _ _ [] c tt (aliases_plain _) h))
        | inr (e, p) ↦ rw (p, Aliases.add_metric_alias) (inr (_, refl))
      ]

Permitted-union :
    (subtypes extra : List String) (base l : String)
    → Permitted subtypes base l
    → Permitted (union subtypes extra) base l
Permitted-union subtypes extra base l (inl e) = inl e
Permitted-union subtypes extra base l (inr (e, there)) =
    inr (e, contains-union subtypes extra l there)

listed_type-union :
    (types extra : List String) (rel : String)
    → ((t : RelType) × (rel ≡ rel_name t)) ⊎ (contains types rel ≡ true)
    → ((t : RelType) × (rel ≡ rel_name t)) ⊎ (contains (union types extra) rel ≡ true)
listed_type-union types extra rel (inl s) = inl s
listed_type-union types extra rel (inr there) = inr (contains-union types extra rel there)

pub register_allowlists-Step :
    (subtypes types : List String) (c : Client)
    → IsSound c
    → Step c (Client.register_allowlists subtypes types c)
unfolding Client.register_allowlists
register_allowlists-Step subtypes types c h = inl (
  refl,
  record {
    nodes =
        Holds-map c.store
          (λ k labels (base, all). (
            base,
            All-map labels (λ l p. Permitted-union c.entity_subtypes subtypes k.label l p) all,
          ))
          h.nodes;
    edges = λ ident e found.
        let (type, prov) = h.edges ident e found in
        (listed_type-union c.pack_edge_types types ident.rel type, prov);
  },
)
