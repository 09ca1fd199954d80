-- ===== src/Graph/Client/Aliases.antt =====
-- The alias index of `GraphClient`: `metric_aliases`, `metric_terms` and `add_metric_alias`.
-- A metric's "metric_key" is read as a text: any other value, which only an attribute of that name
-- can have put there, raises where Python would pass it on.
use Prim.Native.Nat.{Ordering}
use Prim.Native.String.{compare}
use margin_mvp.Base.{
  String, Bool, true, false, Option, none, some, List, [], ◌∷◌, ◌++◌, map, ◌==◌, string_eq,
  if◌then◌else◌,
}
use margin_mvp.Base.Dict.{Dict, lookup, insert}
use margin_mvp.Base.Exec.{Exec, Result, ok, err, key_error, attribute_error}
use margin_mvp.Base.Result
use margin_mvp.Base.Text.{casefold, split_once, last_part}
use margin_mvp.Value.{Atom, text, atom, list, Props, to_text, items, items_or_empty}
use margin_mvp.Graph.Model.{label, metric}
use margin_mvp.Graph.Store.{upsert_node, get_node, nodes_by_label}
use margin_mvp.Graph.Client.{Client, on_store}

-- `m["metric_key"]`
unfoldable pub metric_key_of : Props → Result String
metric_key_of m = elim (lookup "metric_key" m) [
  | none ↦ err (key_error "metric_key")
  | some (atom (text k)) ↦ ok k
  | some _ ↦ err attribute_error
]

-- `m.get("aliases", ()) or ()`
unfoldable pub aliases_of : Props → Result (List Atom)
unfolding items_or_empty
aliases_of m = elim (lookup "aliases" m) [ none ↦ ok [] | some v ↦ items_or_empty v ]

abbrev pub folded : Atom → String
folded a = casefold (to_text a)

-- the inner loop of `metric_aliases`: a later alias takes the place of an equal earlier one
unfoldable pub index_aliases : String → List Atom → Dict String String → Dict String String
index_aliases metric_key [] index = index
index_aliases metric_key (alias ∷ rest) index =
    index_aliases metric_key rest (insert (folded alias) metric_key index)

-- one metric's entries, given its aliases and its key, which counts only if there is an alias
unfoldable pub index_entries :
    Result (List Atom) → Result String → Dict String String → Result (Dict String String)
unfolding index_aliases
index_entries (err e) key index = err e
index_entries (ok []) key index = ok index
index_entries (ok (a ∷ rest)) (err e) index = err e
index_entries (ok (a ∷ rest)) (ok k) index = ok (index_aliases k (a ∷ rest) index)

unfoldable pub index_metric : Props → Dict String String → Result (Dict String String)
unfolding aliases_of metric_key_of index_entries
index_metric m index = index_entries (aliases_of m) (metric_key_of m) index

unfoldable pub index_metrics : List Props → Dict String String → Result (Dict String String)
index_metrics [] index = ok index
index_metrics (m ∷ ms) index = Result.bind (index_metric m index) (index_metrics ms)

unfoldable pub metric_aliases : Client → Result (Dict String String)
metric_aliases c = index_metrics (nodes_by_label (label metric) c.store) []

-- insertion into a sorted list with no repetitions
unfoldable pub insert_sorted : String → List String → List String
insert_sorted x [] = x ∷ []
insert_sorted x (y ∷ ys) = elim (compare x y) [
  | Ordering.lt ↦ x ∷ y ∷ ys
  | Ordering.eq ↦ y ∷ ys
  | Ordering.gt ↦ y ∷ insert_sorted x ys
]

-- `sorted(set(xs))`
unfoldable pub sorted_set : List String → List String
unfolding insert_sorted
sorted_set [] = []
sorted_set (x ∷ xs) = insert_sorted x (sorted_set xs)

-- `metric_key.split(".", 1)[-1].casefold()`
unfoldable pub local_name : String → String
unfolding casefold split_once
local_name metric_key = casefold (last_part (split_once b'.' metric_key))

unfoldable pub terms_of : Props → Result (String × List String)
unfolding aliases_of metric_key_of sorted_set local_name
terms_of m = Result.bind (aliases_of m) λ aliases.
    Result.bind (metric_key_of m) λ k. ok (k, sorted_set (local_name k ∷ map folded aliases))

unfoldable pub collect_terms :
    List Props → Dict String (List String) → Result (Dict String (List String))
collect_terms [] out = ok out
collect_terms (m ∷ ms) out =
    Result.bind (terms_of m) λ (k, terms). collect_terms ms (insert k terms out)

unfoldable pub metric_terms : Client → Result (Dict String (List String))
metric_terms c = collect_terms (nodes_by_label (label metric) c.store) []

-- `alias in current`
unfoldable pub is_listed : String → List Atom → Bool
is_listed alias [] = false
is_listed alias (text a ∷ rest) = if alias == a then true else is_listed alias rest
is_listed alias (_ ∷ rest) = is_listed alias rest

-- `list(node.get("aliases", []) if node else [])`
unfoldable pub current_aliases : Option Props → Result (List Atom)
unfolding items
current_aliases none = ok []
current_aliases (some node) = elim (lookup "aliases" node) [ none ↦ ok [] | some v ↦ items v ]

unfoldable pub with_alias : String → List Atom → List Atom
unfolding is_listed
with_alias alias current = if is_listed alias current then current else current ++ text alias ∷ []

unfoldable pub add_metric_alias : String → String → Exec Client (Unit {0})
unfolding current_aliases with_alias on_store
add_metric_alias metric_key alias c =
    let key = ("metric_key", metric_key) ∷ [] in
    elim (current_aliases (get_node (label metric) key c.store)) [
      | err e ↦ (err e, c)
      | ok current ↦
          on_store
            (upsert_node (label metric) key (("aliases", list (with_alias alias current)) ∷ []) [])
            c
    ]
