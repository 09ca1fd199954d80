-- ===== src/Graph/Client/Index.antt =====
-- graph/client.py: lemmas on the index that `metric_aliases` builds.
use margin_mvp.Base.{
  Bool, ◌≢◌, subst, ◌≡◌, refl, ap, sym, ◌∙◌, inl, inr, true, false, none, some, List, [], ◌∷◌,
  String, string_eq, arith, if◌then◌else◌, ◌==◌,
}
use margin_mvp.Base.Dict.{Dict, lookup, insert}
use margin_mvp.Base.Dict.Laws.{lookup-insert_keeps, lookup-insert_present}
use margin_mvp.Base.Lists.{In}
use margin_mvp.Base.Exec.{Result, ok, err}
use margin_mvp.Base.Result.{bind-eq-ok, ok-injective}
use margin_mvp.Value.{Atom, Props}
use margin_mvp.Graph.Store.{with_label}
use margin_mvp.Graph.Store.Key.{NodeKey, node_key_eq}
use margin_mvp.Graph.Client.Aliases.{
  index_entries, metric_key_of, aliases_of, folded, index_aliases, index_metric, index_metrics,
}

abbrev pub Has : String → Dict String String → Type 0
Has j d = lookup j d ≢ none

insert-Has : (j k v : String) (d : Dict String String) → Has j d → Has j (insert k v d)
insert-Has j k v d h = lookup-insert_keeps j k v d h

index_aliases_keeps :
    (key : String) (aliases : List Atom) (index : Dict String String) (j : String)
    → Has j index
    → Has j (index_aliases key aliases index)
unfolding index_aliases
index_aliases_keeps key [] index j h = h
index_aliases_keeps key (a ∷ rest) index j h =
    index_aliases_keeps key rest (insert (folded a) key index) j
      (insert-Has j (folded a) key index h)

index_aliases-Has :
    (key : String) (aliases : List Atom) (index : Dict String String) (a : Atom)
    → In a aliases
    → Has (folded a) (index_aliases key aliases index)
unfolding index_aliases
index_aliases-Has key [] index a there = elim there [ ]
index_aliases-Has key (b ∷ rest) index a (inl same) =
    index_aliases_keeps key rest (insert (folded b) key index) (folded a) (
      subst (λ x. Has (folded x) (insert (folded b) key index)) (sym same)
        (lookup-insert_present (folded b) key index))
index_aliases-Has key (b ∷ rest) index a (inr later) = index_aliases-Has key rest _ a later

-- what a metric that is read without an exception adds
abbrev Added : Result (List Atom) → Dict String String → Dict String String → Type 0
Added r index out =
    (key : String) × (aliases : List Atom) × (r ≡ ok aliases)
    × (out ≡ index_aliases key aliases index)

index_entries-eq-ok :
    (r : Result (List Atom)) (key : Result String) (index out : Dict String String)
    → index_entries r key index ≡ ok out
    → Added r index out
unfolding index_entries index_aliases
index_entries-eq-ok (err e) key index out built = cc
index_entries-eq-ok (ok []) key index out built = ("", [], refl, sym (ok-injective built))
index_entries-eq-ok (ok (a ∷ rest)) (err e) index out built = cc
index_entries-eq-ok (ok (a ∷ rest)) (ok k) index out built =
    (k, a ∷ rest, refl, sym (ok-injective built))

index_metric-eq-ok :
    (m : Props) (index out : Dict String String)
    → index_metric m index ≡ ok out
    → Added (aliases_of m) index out
unfolding index_metric
index_metric-eq-ok m index out built =
    index_entries-eq-ok (aliases_of m) (metric_key_of m) index out built

index_metrics_keeps :
    (ms : List Props) (index out : Dict String String) (j : String)
    → index_metrics ms index ≡ ok out
    → Has j index
    → Has j out
unfolding index_metrics
index_metrics_keeps [] index out j built h = subst (Has j) (ok-injective built) h
index_metrics_keeps (m ∷ ms) index out j built h =
    let (next, one, rest) = bind-eq-ok (index_metric m index) (index_metrics ms) built in
    let (key, aliases, _, same) = index_metric-eq-ok m index next one in
    index_metrics_keeps ms next out j rest
      (subst (Has j) (sym same) (index_aliases_keeps key aliases index j h))

-- every alias of every metric of the list is in the index
pub index_metrics-Has :
    (ms : List Props) (index out : Dict String String) (m : Props) (aliases : List Atom) (a : Atom)
    → index_metrics ms index ≡ ok out
    → In m ms
    → aliases_of m ≡ ok aliases
    → In a aliases
    → Has (folded a) out
unfolding index_metrics
index_metrics-Has [] index out m aliases a built there read listed = elim there [ ]
index_metrics-Has (n ∷ ms) index out m aliases a built (inl same) read listed =
    let (next, one, rest) = bind-eq-ok (index_metric n index) (index_metrics ms) built in
    let (key, own, read', added) = index_metric-eq-ok n index next one in
    let equal : own ≡ aliases = ok-injective (sym read' ∙ ap aliases_of (sym same) ∙ read) in
    index_metrics_keeps ms next out (folded a) rest (
      subst (Has (folded a)) (sym added)
        (index_aliases-Has key own index a (subst (In a) (sym equal) listed)))
index_metrics-Has (n ∷ ms) index out m aliases a built (inr later) read listed =
    let (next, one, rest) = bind-eq-ok (index_metric n index) (index_metrics ms) built in
    index_metrics-Has ms next out m aliases a rest later read listed

In-more : (y x : Props) (xs : List Props) (b : Bool) → In y xs → In y (if b then x ∷ xs else xs)
In-more y x xs true h = inr h
In-more y x xs false h = h

module _ (k j : NodeKey) (node other : Props) (nodes : Dict NodeKey Props) where
  found_here : k ≡ j → lookup k ((j, other) ∷ nodes) ≡ some node → node ≡ other
  unfolding lookup
  found_here e found = ground arith

  found_later : (k ≡ j → ⊥) → lookup k ((j, other) ∷ nodes) ≡ some node → lookup k nodes ≡ some node
  unfolding lookup
  found_later n found = ground arith

pub with_label-In :
    (l : String) (k : NodeKey) (node : Props) (nodes : Dict NodeKey Props)
    → lookup k nodes ≡ some node
    → k.label ≡ l
    → In node (with_label l nodes)
unfolding with_label lookup
with_label-In l k node [] found same = cc
with_label-In l k node ((j, other) ∷ nodes) found same = elim (node_key_eq.dec k j) [
  | yes e ↦
      let at_label : (j.label == l) ≡ true =
        let named = sym (ap (λ x. x.label) e) ∙ same in ground arith in
      let here : node ≡ other = found_here k j node other nodes e found in rw at_label (inl here)
  | no n ↦
      In-more node other (with_label l nodes) (j.label == l)
        (with_label-In l k node nodes (found_later k j node other nodes n found) same)
]
