-- ===== src/Graph/Neo4j.antt =====
-- graph/store.py: the identifier check and the Cypher texts of `Neo4jGraphStore`. Handing a text to a
-- driver, with its parameters, is in Backend: a text here is made, or the `ValueError` raised that comes
-- before anything is sent.
pub mod Identifiers
pub mod Driver
pub mod Backend
pub mod Guards
pub mod Sessions
pub mod Params
use Prim.Native.Char.{code}
use Prim.Native.String
use margin_mvp.Base.{
  ℕ, String, ◌<>◌, Bool, true, false, ◌&&◌, ◌||◌, Option, none, some, List, [], ◌∷◌, map, leb, eqb,
  if◌then◌else◌,
}
use margin_mvp.Base.Dict.{Dict, keys}
use margin_mvp.Base.Exec.{Result, ok, err, value_error}
use margin_mvp.Base.Result
use margin_mvp.Base.Text.{casefold}
use margin_mvp.Graph.Model.{label, ConstraintKind, unique, node_key, Constraint}

-- `[A-Za-z_]`
unfoldable pub is_start : ℕ → Bool
is_start c = leb b'A' c && leb c b'Z' || leb b'a' c && leb c b'z' || eqb c b'_'

-- `[A-Za-z0-9_]`
unfoldable pub is_part : ℕ → Bool
unfolding is_start
is_part c = is_start c || leb b'0' c && leb c b'9'

unfoldable pub is_empty : String → Bool
is_empty String.[] = true
is_empty (String.◌∷◌ c s) = false

-- `[A-Za-z0-9_]*$`: `$` stands at the end and also before a line feed that ends the text
unfoldable pub tail_matches : String → Bool
tail_matches String.[] = true
tail_matches (String.◌∷◌ c s) =
    let rest = tail_matches s in if is_part (code c) then rest else eqb (code c) 10 && is_empty s

-- `_IDENT.match(value)`
unfoldable pub ident_matches : String → Bool
ident_matches String.[] = false
ident_matches (String.◌∷◌ c s) = is_start (code c) && tail_matches s

-- `_check_ident`
unfoldable pub check_ident : String → Result String
unfolding ident_matches
check_ident value = if ident_matches value then ok value else err (value_error value)

-- `sep.join(...)`
unfoldable pub join : String → List String → String
join sep [] = ""
join sep (s ∷ []) = s
join sep (s ∷ t ∷ rest) = s <> sep <> join sep (t ∷ rest)

-- a check or a formatting of each part, in order, that stops at the first that is refused
unfoldable pub checked : (String → String) → List String → Result (List String)
unfolding check_ident
checked format [] = ok []
checked format (k ∷ ks) =
    Result.bind (check_ident k)
      λ safe. Result.bind (checked format ks) λ rest. ok (format safe ∷ rest)

-- `", ".join(f"{_check_ident(k)}: ${prefix}{k}" for k in props)`
unfoldable pub key_pattern : String → List String → Result String
unfolding checked join
key_pattern prefix ks =
    Result.bind (checked (λ k. k <> ": $" <> prefix <> k) ks) λ parts. ok (join ", " parts)

unfoldable pub constraint_clause : ConstraintKind → String → String
constraint_clause node_key props = "(" <> props <> ") IS NODE KEY"
constraint_clause unique props = "(" <> props <> ") IS UNIQUE"

unfoldable pub constraint_text : Constraint → Result String
unfolding checked join constraint_clause casefold
constraint_text c = Result.bind (check_ident (label c.label)) λ l.
    Result.bind (checked (λ p. "n." <> p) c.properties) λ props.
      let name = casefold l <> "_" <> join "_" c.properties in
      ok (
        "CREATE CONSTRAINT "
        <> name
        <> " IF NOT EXISTS FOR (n:"
        <> l
        <> ") REQUIRE "
        <> constraint_clause c.kind (join ", " props))

unfoldable pub constraint_texts : List Constraint → Result (List String)
unfolding constraint_text
constraint_texts [] = ok []
constraint_texts (c ∷ cs) =
    Result.bind (constraint_text c)
      λ text. Result.bind (constraint_texts cs) λ texts. ok (text ∷ texts)

-- `cypher += f" SET n:{_check_ident(extra)}"` for each
unfoldable pub set_labels : String → List String → Result String
unfolding check_ident
set_labels cypher [] = ok cypher
set_labels cypher (extra ∷ rest) =
    Result.bind (check_ident extra) λ safe. set_labels (cypher <> " SET n:" <> safe) rest

unfoldable pub upsert_node_text : String → List String → List String → Result String
unfolding check_ident key_pattern set_labels
upsert_node_text base_label key_names extra_labels = Result.bind (check_ident base_label) λ l.
    Result.bind (key_pattern "" key_names) λ pattern_text.
      set_labels ("MERGE (n:" <> l <> " {" <> pattern_text <> "}) SET n += $set_props") extra_labels

-- `f" {{{r_pat}}}" if key_props else ""`
unfoldable pub role_pattern : List String → String → String
role_pattern [] r_pat = ""
role_pattern (k ∷ ks) r_pat = " {" <> r_pat <> "}"

unfoldable pub upsert_edge_text :
    String → String → List String → String → List String → List String → Result String
unfolding check_ident key_pattern role_pattern
upsert_edge_text rel_type src_label src_names dst_label dst_names key_names =
    Result.bind (check_ident rel_type) λ rel. Result.bind (check_ident src_label) λ sl.
      Result.bind (check_ident dst_label) λ dl. Result.bind (key_pattern "s_" src_names) λ s_pat.
        Result.bind (key_pattern "d_" dst_names) λ d_pat.
          Result.bind (key_pattern "r_" key_names) λ r_pat. ok (
            "MATCH (s:"
            <> sl
            <> " {"
            <> s_pat
            <> "}) MATCH (d:"
            <> dl
            <> " {"
            <> d_pat
            <> "}) "
            <> "MERGE (s)-[r:"
            <> rel
            <> role_pattern key_names r_pat
            <> "]->(d) SET r += $set_props")

unfoldable pub get_node_text : String → List String → Result String
unfolding check_ident key_pattern
get_node_text base_label key_names = Result.bind (check_ident base_label) λ l.
    Result.bind (key_pattern "" key_names) λ pattern_text.
      ok ("MATCH (n:" <> l <> " {" <> pattern_text <> "}) RETURN n, labels(n) AS labels")

unfoldable pub out_neighbors_text : String → List String → String → Result String
unfolding check_ident key_pattern
out_neighbors_text src_label src_names rel_type = Result.bind (check_ident src_label) λ sl.
    Result.bind (check_ident rel_type) λ rel. Result.bind (key_pattern "" src_names) λ pattern_text.
      ok (
        "MATCH (s:" <> sl <> " {" <> pattern_text <> "})-[r:" <> rel
        <> "]->(d) RETURN d, labels(d) AS labels, r")

unfoldable pub nodes_by_label_text : String → Result String
unfolding check_ident
nodes_by_label_text base_label =
    Result.bind (check_ident base_label)
      λ l. ok ("MATCH (n:" <> l <> ") RETURN n, labels(n) AS labels")
