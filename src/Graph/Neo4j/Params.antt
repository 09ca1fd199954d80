-- ===== src/Graph/Neo4j/Params.antt =====
-- graph/store.py: the parameters that `Neo4jGraphStore.upsert_edge` sends beside its query text.
use text.Mathlib.TextLemmas.{append_cancel_left, cons-append}
use Prim.Native.Char.{code}
use margin_mvp.Base.{
  ℕ, zero, suc, String, ◌<>◌, ◌≡◌, ◌≢◌, refl, inl, inr, Option-cases, sym, ap, ◌∙◌, Option, none,
  some, [], ◌∷◌, string_eq, arith,
}
use margin_mvp.Base.Dict.{Dict, lookup, update, NodupKeys}
use margin_mvp.Base.Dict.Laws.{lookup-update_of_absent, lookup-update_of_present}
use margin_mvp.Value.{Props, text_value}
use margin_mvp.Graph.Neo4j.Driver.{Param, Params, value, properties}
use margin_mvp.Graph.Neo4j.Backend.{prefixed, upsert_edge_params}
use margin_mvp.Base.{Option-cases}

-- the code of the n-th character, and whether there is one
abbrev code_at : ℕ → String → ℕ
code_at n String.[] = 0
code_at zero (String.◌∷◌ c s) = code c
code_at (suc n) (String.◌∷◌ c s) = code_at n s

abbrev Reaches : ℕ → String → Type 0
Reaches n String.[] = ⊥
Reaches zero (String.◌∷◌ c s) = Unit
Reaches (suc n) (String.◌∷◌ c s) = Reaches n s

code_at-append : (n : ℕ) (s t : String) → Reaches n s → code_at n (s <> t) ≡ code_at n s
code_at-append n String.[] t h = absurd h
code_at-append zero (String.◌∷◌ c s) t h = ap (code_at 0) (cons-append c s t)
code_at-append (suc n) (String.◌∷◌ c s) t h =
    ap (code_at (suc n)) (cons-append c s t) ∙ code_at-append n s t h

-- texts that begin with a and with b differ where a and b have different characters
prefixes_differ :
    (n : ℕ) (a b k j : String)
    → Reaches n a
    → Reaches n b
    → code_at n a ≢ code_at n b
    → (a <> k) ≢ (b <> j)
prefixes_differ n a b k j ra rb other same =
    other (sym (code_at-append n a k ra) ∙ ap (code_at n) same ∙ code_at-append n b j rb)

-- the parameter that a key property is bound to
abbrev pub bound : Option String → Option Param
bound none = none
bound (some v) = some (value (text_value v))

module _ (prefix : String) where
  lookup-prefixed :
      (k : String) (d : Dict String String)
      → lookup (prefix <> k) (prefixed prefix d) ≡ bound (lookup k d)
  unfolding prefixed lookup
  lookup-prefixed k [] = refl
  lookup-prefixed k ((j, v) ∷ d) = elim (string_eq.dec k j) [
    | yes same ↦ ground (arith, ap (λ x. prefix <> x) same)
    | no other ↦ ground (arith, lookup-prefixed k d, append_cancel_left prefix k j)
  ]

  lookup-prefixed_other :
      (x : String) (d : Dict String String)
      → ((k : String) → x ≢ prefix <> k)
      → lookup x (prefixed prefix d) ≡ none
  unfolding prefixed lookup
  lookup-prefixed_other x [] other = refl
  lookup-prefixed_other x ((j, v) ∷ d) other =
      ground (arith, other j, lookup-prefixed_other x d other)

  prefixed-NodupKeys : (d : Dict String String) → NodupKeys d → NodupKeys (prefixed prefix d)
  unfolding prefixed
  prefixed-NodupKeys [] u = tt
  prefixed-NodupKeys ((k, v) ∷ d) (fresh, u) =
      (lookup-prefixed k d ∙ ap bound fresh, prefixed-NodupKeys d u)

  -- what one of the updates binds, and what it leaves as it was
  lookup-update-prefixed :
      (k : String) (params : Params) (d : Dict String String)
      → NodupKeys d
      → lookup (prefix <> k) params ≡ none
      → lookup (prefix <> k) (update params (prefixed prefix d)) ≡ bound (lookup k d)
  lookup-update-prefixed k params d u fresh = elim (Option-cases (lookup k d)) [
    | inl absent ↦
        lookup-update_of_absent (prefix <> k) params (prefixed prefix d)
          (lookup-prefixed k d ∙ ap bound absent)
        ∙ fresh
        ∙ sym (ap bound absent)
    | inr (v, found) ↦
        lookup-update_of_present (prefix <> k) (value (text_value v)) params (prefixed prefix d)
          (prefixed-NodupKeys d u) (lookup-prefixed k d ∙ ap bound found)
        ∙ sym (ap bound found)
  ]

  lookup-update_other :
      (x : String) (params : Params) (d : Dict String String)
      → ((k : String) → x ≢ prefix <> k)
      → lookup x (update params (prefixed prefix d)) ≡ lookup x params
  lookup-update_other x params d other =
      lookup-update_of_absent x params (prefixed prefix d) (lookup-prefixed_other x d other)

-- no two of the four kinds of name meet
src_dst : (k j : String) → (◌≢◌) {A = String} ("s_" <> k) ("d_" <> j)
src_dst k j = prefixes_differ 0 "s_" "d_" k j tt tt (omega arith)

src_rel : (k j : String) → (◌≢◌) {A = String} ("s_" <> k) ("r_" <> j)
src_rel k j = prefixes_differ 0 "s_" "r_" k j tt tt (omega arith)

dst_rel : (k j : String) → (◌≢◌) {A = String} ("d_" <> k) ("r_" <> j)
dst_rel k j = prefixes_differ 0 "d_" "r_" k j tt tt (omega arith)

set_src : (k : String) → (◌≢◌) {A = String} "set_props" ("s_" <> k)
set_src k same = prefixes_differ 1 "set_props" "s_" "" k tt tt (omega arith) same

set_dst : (k : String) → (◌≢◌) {A = String} "set_props" ("d_" <> k)
set_dst k same = prefixes_differ 0 "set_props" "d_" "" k tt tt (omega arith) same

set_rel : (k : String) → (◌≢◌) {A = String} "set_props" ("r_" <> k)
set_rel k same = prefixes_differ 0 "set_props" "r_" "" k tt tt (omega arith) same

flip : {a b : String} → a ≢ b → b ≢ a
flip n same = n (sym same)

module _ (src_key dst_key key_props : Dict String String) (set_props : Props) where
  abbrev params : Params
  params = upsert_edge_params src_key dst_key key_props set_props

  abbrev start : Params
  start = ("set_props", properties set_props) ∷ []

  abbrev with_src : Params
  with_src = update start (prefixed "s_" src_key)

  abbrev with_dst : Params
  with_dst = update with_src (prefixed "d_" dst_key)

  start_other : (x : String) → x ≢ "set_props" → lookup x start ≡ none
  unfolding lookup
  start_other x other = ground arith

  -- Neo4jGraphStore.upsert_edge, the three dicts listing no key twice: the parameters that are sent bind
  -- `s_k`, `d_k` and `r_k`, for every name k, to what the source's key, the target's key and the edge's
  -- key hold at k, and to nothing where they hold nothing, and `set_props` to the properties.
  pub lookup-upsert_edge_params :
      NodupKeys src_key
      → NodupKeys dst_key
      → NodupKeys key_props
      → (k : String)
      → (lookup ("s_" <> k) params ≡ bound (lookup k src_key))
        × (lookup ("d_" <> k) params ≡ bound (lookup k dst_key))
        × (lookup ("r_" <> k) params ≡ bound (lookup k key_props))
        × (lookup "set_props" params ≡ some (properties set_props))
  unfolding upsert_edge_params
  lookup-upsert_edge_params us ud ur k = (
    lookup-update_other "r_" _ with_dst key_props (src_rel k)
        ∙ lookup-update_other "d_" _ with_src dst_key (src_dst k)
        ∙ lookup-update-prefixed "s_" k start src_key us (start_other _ (flip (set_src k))),
    lookup-update_other "r_" _ with_dst key_props (dst_rel k)
        ∙ lookup-update-prefixed "d_" k with_src dst_key ud (
            lookup-update_other "s_" _ start src_key (λ j. flip (src_dst j k))
            ∙ start_other _ (flip (set_dst k))),
    lookup-update-prefixed "r_" k with_dst key_props ur (
        lookup-update_other "d_" _ with_src dst_key (λ j. flip (dst_rel j k))
        ∙ lookup-update_other "s_" _ start src_key (λ j. flip (src_rel j k))
        ∙ start_other _ (flip (set_rel k))),
    lookup-update_other "r_" _ with_dst key_props set_rel
        ∙ lookup-update_other "d_" _ with_src dst_key set_dst
        ∙ lookup-update_other "s_" _ start src_key set_src
        ∙ (unfold lookup string_eq in refl),
  )
