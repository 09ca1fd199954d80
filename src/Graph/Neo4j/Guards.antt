-- ===== src/Graph/Neo4j/Guards.antt =====
-- graph/store.py: the names that each operation of `Neo4jGraphStore` checks before it reaches the driver.
use margin_mvp.Base.{String, ◌<>◌, ◌≡◌, refl, ◌⊎◌, inl, inr, List, [], ◌∷◌, ◌++◌, Bool-cases}
use margin_mvp.Base.Lists.{All, All-append, In}
use margin_mvp.Base.Dict.{keys}
use margin_mvp.Base.Exec.{Exec, Result, ok, err, value_error, lift, ◌>>=◌}
use margin_mvp.Base.Result
use margin_mvp.Graph.Model.{label, Constraint}
use margin_mvp.Graph.Protocol.{Request, perform}
use margin_mvp.Graph.Protocol.Request.{
  ensure_constraints, upsert_node, upsert_edge, get_node, out_neighbors, nodes_by_label,
}
use margin_mvp.Graph.Neo4j.{
  check_ident, ident_matches, checked, key_pattern, set_labels, constraint_text, constraint_texts,
  upsert_node_text, upsert_edge_text, get_node_text, out_neighbors_text, nodes_by_label_text,
}
use margin_mvp.Graph.Neo4j.Identifiers.{Safe, ident-Line, ident_of-Line}
use margin_mvp.Graph.Neo4j.Driver.{Driver}
use margin_mvp.Graph.Neo4j.Backend
use margin_mvp.Graph.Neo4j.Backend.{Neo4jGraphStore, neo4j_store}

-- a name of the list that is no identifier, on which `r` is a `ValueError`
abbrev pub Refused {ℓ} : {A : Type ℓ} → List String → Result A → Type ℓ
Refused names r = (v : String) × In v names × ¬ Safe v × (r ≡ err (value_error v))

abbrev Returned {ℓ} : {A : Type ℓ} → List String → Result A → Type ℓ
Returned {A = A} names r = (a : A) × All Safe names × (r ≡ ok a)

abbrev Guard {ℓ} : {A : Type ℓ} → List String → Result A → Type ℓ
Guard names r = Returned names r ⊎ Refused names r

In-append_left : (v : String) (xs ys : List String) → In v xs → In v (xs ++ ys)
In-append_left v [] ys h = absurd h
In-append_left v (x ∷ xs) ys (inl e) = inl e
In-append_left v (x ∷ xs) ys (inr h) = inr (In-append_left v xs ys h)

In-append_right : (v : String) (xs ys : List String) → In v ys → In v (xs ++ ys)
In-append_right v [] ys h = h
In-append_right v (x ∷ xs) ys h = inr (In-append_right v xs ys h)

module _ {ℓ κ} {A : Type ℓ} {B : Type κ} where
  -- a check, and what is checked after it
  bind-Guard :
      (xs ys : List String) (r : Result A) (f : A → Result B)
      → Guard xs r
      → ((a : A) → Guard ys (f a))
      → Guard (xs ++ ys) (Result.bind r f)
  bind-Guard xs ys r f (inl (a, safe, done)) next = elim (next a) [
    | inl (b, others, last) ↦ inl (b, All-append Safe xs ys safe others, rw done last)
    | inr (v, there, bad, last) ↦ inr (v, In-append_right v xs ys there, bad, rw done last)
  ]
  bind-Guard xs ys r f (inr (v, there, bad, failed)) next =
      inr (v, In-append_left v xs ys there, bad, rw failed refl)

  -- what is made of the checked text
  map-Guard :
      (xs : List String) (r : Result A) (f : A → B)
      → Guard xs r
      → Guard xs (Result.bind r λ a. ok (f a))
  map-Guard xs r f (inl (a, safe, done)) = inl (f a, safe, rw done refl)
  map-Guard xs r f (inr (v, there, bad, failed)) = inr (v, there, bad, rw failed refl)

check_ident-Guard : (v : String) → Guard (v ∷ []) (check_ident v)
unfolding check_ident
check_ident-Guard v = elim (Bool-cases (ident_matches v)) [
  | inl good ↦ rw good (inl (v, (ident-Line v good, tt), refl))
  | inr bad ↦ rw bad (inr (v, inl refl, (λ safe. let h = ident_of-Line v safe in cc), refl))
]

checked-Guard : (format : String → String) (ks : List String) → Guard ks (checked format ks)
unfolding checked
checked-Guard format [] = inl ([], tt, refl)
checked-Guard format (k ∷ ks) =
    bind-Guard (k ∷ []) ks (check_ident k) _ (check_ident-Guard k)
      λ safe. map-Guard ks (checked format ks) _ (checked-Guard format ks)

key_pattern-Guard : (prefix : String) (ks : List String) → Guard ks (key_pattern prefix ks)
unfolding key_pattern
key_pattern-Guard prefix ks = map-Guard ks (checked _ ks) _ (checked-Guard _ ks)

set_labels-Guard : (cypher : String) (extra : List String) → Guard extra (set_labels cypher extra)
unfolding set_labels
set_labels-Guard cypher [] = inl (cypher, tt, refl)
set_labels-Guard cypher (l ∷ extra) =
    bind-Guard (l ∷ []) extra (check_ident l) _ (check_ident-Guard l)
      λ safe. set_labels-Guard (cypher <> " SET n:" <> safe) extra

abbrev pub constraint_names : List Constraint → List String
constraint_names [] = []
constraint_names (c ∷ cs) = (label c.label ∷ c.properties) ++ constraint_names cs

constraint_text-Guard : (c : Constraint) → Guard (label c.label ∷ c.properties) (constraint_text c)
unfolding constraint_text
constraint_text-Guard c =
    bind-Guard (label c.label ∷ []) c.properties (check_ident (label c.label)) _
      (check_ident-Guard (label c.label))
      λ l. map-Guard c.properties (checked _ c.properties) _ (checked-Guard _ c.properties)

constraint_texts-Guard : (cs : List Constraint) → Guard (constraint_names cs) (constraint_texts cs)
unfolding constraint_texts
constraint_texts-Guard [] = inl ([], tt, refl)
constraint_texts-Guard (c ∷ cs) =
    bind-Guard (label c.label ∷ c.properties) (constraint_names cs) (constraint_text c) _
      (constraint_text-Guard c)
      λ text. map-Guard (constraint_names cs) (constraint_texts cs) _ (constraint_texts-Guard cs)

upsert_node_text-Guard :
    (base_label : String) (ks extra : List String)
    → Guard (base_label ∷ ks ++ extra) (upsert_node_text base_label ks extra)
unfolding upsert_node_text
upsert_node_text-Guard base_label ks extra =
    bind-Guard (base_label ∷ []) (ks ++ extra) (check_ident base_label) _
      (check_ident-Guard base_label)
      λ l.
        bind-Guard ks extra (key_pattern "" ks) _ (key_pattern-Guard "" ks)
          λ pattern_text. set_labels-Guard _ extra

abbrev pub edge_names :
    String → String → List String → String → List String → List String → List String
edge_names rel_type src_label src_names dst_label dst_names key_names =
    rel_type ∷ src_label ∷ dst_label ∷ src_names ++ (dst_names ++ key_names)

upsert_edge_text-Guard :
    (rel_type src_label : String) (src_names : List String) (dst_label : String)
    (dst_names key_names : List String)
    → Guard
        (edge_names rel_type src_label src_names dst_label dst_names key_names)
        (upsert_edge_text rel_type src_label src_names dst_label dst_names key_names)
unfolding upsert_edge_text
upsert_edge_text-Guard rel_type src_label src_names dst_label dst_names key_names =
    bind-Guard (rel_type ∷ []) (src_label ∷ dst_label ∷ src_names ++ (dst_names ++ key_names))
      (check_ident rel_type) _ (check_ident-Guard rel_type)
      λ rel.
        bind-Guard (src_label ∷ []) (dst_label ∷ src_names ++ (dst_names ++ key_names))
          (check_ident src_label) _ (check_ident-Guard src_label)
          λ sl.
            bind-Guard (dst_label ∷ []) (src_names ++ (dst_names ++ key_names))
              (check_ident dst_label) _ (check_ident-Guard dst_label)
              λ dl.
                bind-Guard src_names (dst_names ++ key_names) (key_pattern "s_" src_names) _
                  (key_pattern-Guard "s_" src_names)
                  λ s_pat.
                    bind-Guard dst_names key_names (key_pattern "d_" dst_names) _
                      (key_pattern-Guard "d_" dst_names)
                      λ d_pat.
                        map-Guard key_names (key_pattern "r_" key_names) _
                          (key_pattern-Guard "r_" key_names)

get_node_text-Guard :
    (base_label : String) (ks : List String) → Guard (base_label ∷ ks) (get_node_text base_label ks)
unfolding get_node_text
get_node_text-Guard base_label ks =
    bind-Guard (base_label ∷ []) ks (check_ident base_label) _ (check_ident-Guard base_label)
      λ l. map-Guard ks (key_pattern "" ks) _ (key_pattern-Guard "" ks)

out_neighbors_text-Guard :
    (src_label : String) (ks : List String) (rel_type : String)
    → Guard (src_label ∷ rel_type ∷ ks) (out_neighbors_text src_label ks rel_type)
unfolding out_neighbors_text
out_neighbors_text-Guard src_label ks rel_type =
    bind-Guard (src_label ∷ []) (rel_type ∷ ks) (check_ident src_label) _
      (check_ident-Guard src_label)
      λ sl.
        bind-Guard (rel_type ∷ []) ks (check_ident rel_type) _ (check_ident-Guard rel_type)
          λ rel. map-Guard ks (key_pattern "" ks) _ (key_pattern-Guard "" ks)

nodes_by_label_text-Guard :
    (base_label : String) → Guard (base_label ∷ []) (nodes_by_label_text base_label)
unfolding nodes_by_label_text
nodes_by_label_text-Guard base_label =
    map-Guard (base_label ∷ []) (check_ident base_label) _ (check_ident-Guard base_label)

-- the names of a request that are written into its text
abbrev pub names : Request → List String
names (ensure_constraints constraints) = constraint_names constraints
names (upsert_node base_label key_props set_props extra_labels) =
    base_label ∷ keys key_props ++ extra_labels
names (upsert_edge rel_type src_label src_key dst_label dst_key key_props set_props) =
    edge_names rel_type src_label (keys src_key) dst_label (keys dst_key) (keys key_props)
names (get_node base_label key_props) = base_label ∷ keys key_props
names (out_neighbors src_label src_key rel_type) = src_label ∷ rel_type ∷ keys src_key
names (nodes_by_label base_label) = base_label ∷ []

-- a call that is not reached, since a name is refused before it
abbrev pub Untouched {ℓ κ} : {S : Type ℓ} {A : Type κ} → List String → Exec S A → S → Type (ℓ ⊔ κ)
Untouched names m s = (v : String) × In v names × ¬ Safe v × (m s ≡ (err (value_error v), s))

lift-Guard {ℓ κ μ} :
    {S : Type ℓ} {A : Type κ} {B : Type μ} (xs : List String) (r : Result A) (next : A → Exec S B)
    (s : S)
    → Guard xs r
    → All Safe xs ⊎ Untouched xs (lift r >>= next) s
unfolding ◌>>=◌ lift
lift-Guard xs r next s (inl (a, safe, done)) = inl safe
lift-Guard xs r next s (inr (v, there, bad, failed)) = inr (v, there, bad, rw failed refl)

-- Neo4jGraphStore, each of its six operations, over any driver: either each label, relationship type and
-- property name that is written into the query text is an identifier (up to a closing line feed), or the
-- call raises a ValueError on a name that is none, and the driver is as it was: no session was opened.
pub perform-IsGuarded :
    (d : Driver) (r : Request) (s : Neo4jGraphStore d)
    → All Safe (names r) ⊎ Untouched (names r) (perform (neo4j_store d) r) s
unfolding perform neo4j_store Backend.ensure_constraints Backend.upsert_node Backend.upsert_edge
    Backend.get_node Backend.out_neighbors Backend.nodes_by_label
perform-IsGuarded d (ensure_constraints constraints) s =
    lift-Guard (constraint_names constraints) _ _ s (constraint_texts-Guard constraints)
perform-IsGuarded d (upsert_node base_label key_props set_props extra_labels) s =
    lift-Guard (base_label ∷ keys key_props ++ extra_labels) _ _ s
      (upsert_node_text-Guard base_label (keys key_props) extra_labels)
perform-IsGuarded d (upsert_edge rel_type src_label src_key dst_label dst_key key_props props) s =
    lift-Guard
      (edge_names rel_type src_label (keys src_key) dst_label (keys dst_key) (keys key_props)) _ _ s
      (upsert_edge_text-Guard rel_type src_label (keys src_key) dst_label (keys dst_key)
        (keys key_props))
perform-IsGuarded d (get_node base_label key_props) s =
    lift-Guard (base_label ∷ keys key_props) _ _ s (get_node_text-Guard base_label (keys key_props))
perform-IsGuarded d (out_neighbors src_label src_key rel_type) s =
    lift-Guard (src_label ∷ rel_type ∷ keys src_key) _ _ s
      (out_neighbors_text-Guard src_label (keys src_key) rel_type)
perform-IsGuarded d (nodes_by_label base_label) s =
    lift-Guard (base_label ∷ []) _ _ s (nodes_by_label_text-Guard base_label)
