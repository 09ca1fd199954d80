-- ===== src/Graph/Client/WriteBack.antt =====
-- graph/client.py: `add_metric_alias` and the index of `metric_aliases`.
use margin_mvp.Base.{
  Bool, ◌≢◌, ◌≡◌, refl, ap, sym, ◌∙◌, inl, inr, true, false, none, some, List, [], ◌∷◌, ◌++◌,
  String, string_eq, arith, ◌==◌, Bool-cases,
}
use margin_mvp.Base.Lists.{In}
use margin_mvp.Base.Dict.{Dict, lookup, update}
use margin_mvp.Base.Dict.Laws.{lookup-insert_ne, lookup-insert_self}
use margin_mvp.Base.Exec.{Result, ok, err}
use margin_mvp.Base.Result.{Result-cases}
use margin_mvp.Base.Text.{casefold}
use margin_mvp.Value.{items, items_or_empty, to_text, null, bool, int, Atom, text, list, Props}
use margin_mvp.Graph.Model.{label, metric}
use margin_mvp.Graph.Store.{nodes_by_label, upsert_node, get_node, add_labels, merge_base}
use margin_mvp.Graph.Store.Key.{node_key}
use margin_mvp.Graph.Store.Merge.{
  upsert_node_lem, get_node-upsert_node, written, new_node, add_labels-eq-ok, outcome,
}
use margin_mvp.Graph.Client.{Client, on_store}
use margin_mvp.Graph.Client.Aliases.{
  metric_aliases, add_metric_alias, with_alias, is_listed, current_aliases, aliases_of,
}
use margin_mvp.Graph.Client.Index.{index_metrics-Has, with_label-In}

is_listed-In :
    (alias : String) (current : List Atom)
    → is_listed alias current ≡ true
    → In (text alias) current
unfolding is_listed
is_listed-In alias [] h = cc
is_listed-In alias (text a ∷ rest) h = elim (string_eq.dec alias a) [
  | yes e ↦ inl (ap text e)
  | no n ↦ inr (is_listed-In alias rest (ground arith))
]
is_listed-In alias (null ∷ rest) h = inr (is_listed-In alias rest h)
is_listed-In alias (bool b ∷ rest) h = inr (is_listed-In alias rest h)
is_listed-In alias (int n ∷ rest) h = inr (is_listed-In alias rest h)

In-last : (x : Atom) (xs : List Atom) → In x (xs ++ x ∷ [])
In-last x [] = inl refl
In-last x (y ∷ xs) = inr (In-last x xs)

with_alias-In : (alias : String) (current : List Atom) → In (text alias) (with_alias alias current)
unfolding with_alias
with_alias-In alias current = elim (Bool-cases (is_listed alias current)) [
  | inl there ↦ rw there (is_listed-In alias current there)
  | inr new ↦ rw new (In-last (text alias) current)
]

abbrev key_of : String → Dict String String
key_of metric_key = ("metric_key", metric_key) ∷ []

abbrev aliases_prop : List Atom → Props
aliases_prop aliases = ("aliases", list aliases) ∷ []

pub aliases_labels : (◌≢◌) {A = String} "aliases" "_labels"
aliases_labels e =
    let f : String → Bool = λ s. s == "_labels" in
    let different : false ≡ true = unfold string_eq in ap f e in cc

-- a returning upsert of the aliases leaves them on the node
written-aliases :
    (base : Props) (aliases : List Atom)
    → outcome (add_labels (update base (aliases_prop aliases)) []) ≡ ok tt
    → lookup "aliases" (written (update base (aliases_prop aliases)) []) ≡ some (list aliases)
unfolding update
written-aliases base aliases h =
    elim (Result-cases (add_labels (update base (aliases_prop aliases)) [])) [
      | inr (e, failed) ↦ let raised = ap outcome failed in cc
      | inl (node', added) ↦
          let (labels, _, shape) = add_labels-eq-ok (update base (aliases_prop aliases)) [] added in
          rw added (
            ap (lookup "aliases") shape
            ∙ lookup-insert_ne "aliases" "_labels" _ (update base (aliases_prop aliases))
                aliases_labels
            ∙ lookup-insert_self "aliases" (list aliases) base)
    ]

aliases_of-list :
    (m : Props) (xs : List Atom) → lookup "aliases" m ≡ some (list xs) → aliases_of m ≡ ok xs
unfolding aliases_of items_or_empty items
aliases_of-list m xs h = rw (h, aliases_of) refl

module _ (key alias : String) (c : Client) where
  abbrev written_back : List Atom → Result (Unit {0}) × Client
  written_back current =
      on_store
        (upsert_node (label metric) (key_of key) (aliases_prop (with_alias alias current)) []) c

  add_metric_alias-eq-ok :
      (add_metric_alias key alias c).0 ≡ ok tt
      → (current : List Atom) × (add_metric_alias key alias c ≡ written_back current)
  unfolding add_metric_alias on_store
  add_metric_alias-eq-ok h =
      elim (Result-cases (current_aliases (get_node (label metric) (key_of key) c.store))) [
        | inr (e, failed) ↦
            let step : add_metric_alias key alias c ≡ (err e, c) =
              rw (failed, add_metric_alias) refl in
            let raised = ap (λ p. p.0) step in cc
        | inl (current, read) ↦ (current, rw (read, add_metric_alias) refl)
      ]

  module _ (current : List Atom) where
    abbrev node : Props
    node =
        written
          (new_node (label metric) (key_of key) (aliases_prop (with_alias alias current)) []
            c.store)
          []

    stored : get_node (label metric) (key_of key) (written_back current).1.store ≡ some node
    unfolding on_store
    stored =
        get_node-upsert_node (label metric) (key_of key) (aliases_prop (with_alias alias current))
          [] c.store (label metric) (key_of key)
        ∙ ground arith

    stored-aliases :
        (written_back current).0 ≡ ok tt → aliases_of node ≡ ok (with_alias alias current)
    unfolding on_store
    stored-aliases h =
        let added =
          sym (
            ap (λ p. p.0)
              (upsert_node_lem (label metric) (key_of key) (aliases_prop (with_alias alias current))
                [] c.store))
          ∙ h in
        aliases_of-list _ (with_alias alias current) (
          written-aliases (merge_base (label metric) (key_of key) c.store)
            (with_alias alias current) added)

  -- add_metric_alias, when it returns, and if the aliases of the graph can then be read: the alias, case-folded,
  -- is a key of the index that metric_aliases builds.
  pub add_metric_alias_lem :
      (index : Dict String String)
      → (add_metric_alias key alias c).0 ≡ ok tt
      → metric_aliases (add_metric_alias key alias c).1 ≡ ok index
      → lookup (casefold alias) index ≢ none
  unfolding metric_aliases nodes_by_label get_node node_key to_text
  add_metric_alias_lem index h built =
      let (current, step) = add_metric_alias-eq-ok h in
      let written_ok : (written_back current).0 ≡ ok tt = ap (λ p. p.0) (sym step) ∙ h in
      let built' : metric_aliases (written_back current).1 ≡ ok index =
        ap (λ p. metric_aliases p.1) (sym step) ∙ built in
      index_metrics-Has _ [] index (node current) (with_alias alias current) (text alias) built'
        (with_label-In (label metric) (node_key (label metric) (key_of key)) (node current) _
          (stored current) refl)
        (stored-aliases current written_ok) (with_alias-In alias current)
