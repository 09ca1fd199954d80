-- ===== src/Graph/Neo4j/Identifiers.antt =====
-- graph/store.py: `_check_ident`, and which names reach the text of a query.
use Prim.Native.Char.{Char, code}
use margin_mvp.Base.{
  ℕ, String, ◌<>◌, ◌≡◌, refl, ap, ◌↔◌, ◌⊎◌, inl, inr, Bool, true, false, ◌&&◌, List, [], ◌∷◌, arith,
  Bool-cases,
}
use margin_mvp.Base.Lists.{All}
use margin_mvp.Base.Exec.{ok}
use margin_mvp.Base.Result.{bind-eq-ok}
use margin_mvp.Graph.Neo4j.{
  is_start, is_part, is_empty, tail_matches, ident_matches, check_ident, checked, key_pattern,
  set_labels, upsert_node_text, upsert_edge_text,
}

-- `t + c`
unfoldable pub followed_by : Char → String → String
followed_by c String.[] = String.◌∷◌ c String.[]
followed_by c (String.◌∷◌ d t) = String.◌∷◌ d (followed_by c t)

-- letters, digits and underscores only
unfoldable pub all_parts : String → Bool
all_parts String.[] = true
all_parts (String.◌∷◌ c s) = is_part (code c) && all_parts s

-- an identifier: it starts with a letter or an underscore
unfoldable pub is_ident : String → Bool
is_ident String.[] = false
is_ident (String.◌∷◌ c s) = is_start (code c) && all_parts s

-- `s` is an identifier, or one with a line feed at its end
abbrev pub Line : (String → Bool) → String → Type 0
Line p s =
    (p s ≡ true)
    ⊎ ((t : String) × (c : Char) × (p t ≡ true) × (code c ≡ 10) × (s ≡ followed_by c t))

is_empty_lem : (s : String) → is_empty s ≡ true → s ≡ String.[]
unfolding is_empty
is_empty_lem String.[] h = refl
is_empty_lem (String.◌∷◌ c s) h = cc

tail-Line : (s : String) → tail_matches s ≡ true → Line all_parts s
unfolding tail_matches all_parts followed_by
tail-Line String.[] h = inl refl
tail-Line (String.◌∷◌ c s) h = elim (Bool-cases (is_part (code c))) [
  | inl part ↦ elim (tail-Line s (ground arith)) [
    | inl plain ↦ inl (ground arith)
    | inr (t, d, plain, feed, same) ↦
        inr (String.◌∷◌ c t, d, ground arith, feed, ap (λ u. String.◌∷◌ c u) same)
  ]
  | inr other ↦
      inr
        (String.[], c, refl, ground arith, ap (λ u. String.◌∷◌ c u) (is_empty_lem s (ground arith)))
]

pub ident-Line : (s : String) → ident_matches s ≡ true → Line is_ident s
unfolding ident_matches is_ident followed_by
ident-Line String.[] h = cc
ident-Line (String.◌∷◌ c s) h = elim (tail-Line s (ground arith)) [
  | inl plain ↦ inl (ground arith)
  | inr (t, d, plain, feed, same) ↦
      inr (String.◌∷◌ c t, d, ground arith, feed, ap (λ u. String.◌∷◌ c u) same)
]

tail_plain : (s : String) → all_parts s ≡ true → tail_matches s ≡ true
unfolding tail_matches all_parts followed_by
tail_plain String.[] h = refl
tail_plain (String.◌∷◌ c s) h = ground (arith, tail_plain s)

not_part : (c : ℕ) → c ≡ 10 → is_part c ≡ false
unfolding is_part is_start
not_part c h = ground arith

tail_feed :
    (t : String) (c : Char)
    → all_parts t ≡ true
    → code c ≡ 10
    → tail_matches (followed_by c t) ≡ true
unfolding tail_matches all_parts is_empty followed_by
tail_feed String.[] c h feed = rw (not_part (code c) feed) (ground arith)
tail_feed (String.◌∷◌ d t) c h feed = ground (arith, tail_feed t c)

ident_feed :
    (t : String) (c : Char)
    → is_ident t ≡ true
    → code c ≡ 10
    → ident_matches (followed_by c t) ≡ true
unfolding ident_matches is_ident followed_by
ident_feed String.[] c h feed = cc
ident_feed (String.◌∷◌ d t) c h feed = ground (arith, tail_feed t c)

ident_plain : (s : String) → is_ident s ≡ true → ident_matches s ≡ true
unfolding ident_matches is_ident
ident_plain String.[] h = cc
ident_plain (String.◌∷◌ c s) h = ground (arith, tail_plain s)

pub ident_of-Line : (s : String) → Line is_ident s → ident_matches s ≡ true
ident_of-Line s (inl plain) = ident_plain s plain
ident_of-Line s (inr (t, c, plain, feed, same)) = rw same (ident_feed t c plain feed)

-- _check_ident: it passes a text on unchanged exactly if the text is an identifier (a letter or underscore,
-- then letters, digits and underscores) or, since `$` stands before a closing line feed too, an identifier
-- with one line feed after it.
pub check_ident_iff : (s : String) → (check_ident s ≡ ok s) ↔ Line is_ident s
unfolding check_ident
check_ident_iff s =
    ((λ h. ident-Line s (ground arith)), (λ h. let matches = ident_of-Line s h in rw matches refl))

abbrev pub Safe : String → Type 0
Safe s = Line is_ident s

check_ident-Safe : (s : String) {t : String} → check_ident s ≡ ok t → Safe s
unfolding check_ident
check_ident-Safe s h = ident-Line s (ground arith)

checked-Safe :
    (format : String → String) (ks : List String) {out : List String}
    → checked format ks ≡ ok out
    → All Safe ks
unfolding checked
checked-Safe format [] h = tt
checked-Safe format (k ∷ ks) h =
    let (safe, one, more) = bind-eq-ok (check_ident k) _ h in
    let (rest, others, _) = bind-eq-ok (checked format ks) _ more in
    (check_ident-Safe k one, checked-Safe format ks others)

key_pattern-Safe :
    (prefix : String) (ks : List String) {out : String}
    → key_pattern prefix ks ≡ ok out
    → All Safe ks
unfolding key_pattern
key_pattern-Safe prefix ks h =
    let (parts, one, _) = bind-eq-ok (checked _ ks) _ h in checked-Safe _ ks one

set_labels-Safe :
    (cypher : String) (extra : List String) {out : String}
    → set_labels cypher extra ≡ ok out
    → All Safe extra
unfolding set_labels
set_labels-Safe cypher [] h = tt
set_labels-Safe cypher (l ∷ extra) h =
    let (safe, one, more) = bind-eq-ok (check_ident l) _ h in
    (check_ident-Safe l one, set_labels-Safe (cypher <> " SET n:" <> safe) extra more)

-- Neo4jGraphStore.upsert_node: if it makes a query text, the base label, each key name and each extra label
-- are identifiers, up to a closing line feed.
pub upsert_node_text-Safe :
    (base_label : String) (key_names extra_labels : List String) {cypher : String}
    → upsert_node_text base_label key_names extra_labels ≡ ok cypher
    → Safe base_label × All Safe key_names × All Safe extra_labels
unfolding upsert_node_text
upsert_node_text-Safe base_label key_names extra_labels h =
    let (l, one, more) = bind-eq-ok (check_ident base_label) _ h in
    let (pattern_text, two, last) = bind-eq-ok (key_pattern "" key_names) _ more in
    (
      check_ident-Safe base_label one,
      key_pattern-Safe "" key_names two,
      set_labels-Safe _ extra_labels last,
    )

-- Neo4jGraphStore.upsert_edge: if it makes a query text, the relationship type, both labels and every key
-- name are identifiers, up to a closing line feed.
pub upsert_edge_text-Safe :
    (rel_type src_label : String) (src_names : List String) (dst_label : String)
    (dst_names key_names : List String) {cypher : String}
    → upsert_edge_text rel_type src_label src_names dst_label dst_names key_names ≡ ok cypher
    → Safe rel_type
      × Safe src_label
      × Safe dst_label
      × All Safe src_names
      × All Safe dst_names
      × All Safe key_names
unfolding upsert_edge_text
upsert_edge_text-Safe rel_type src_label src_names dst_label dst_names key_names h =
    let (rel, h₁, r₁) = bind-eq-ok (check_ident rel_type) _ h in
    let (sl, h₂, r₂) = bind-eq-ok (check_ident src_label) _ r₁ in
    let (dl, h₃, r₃) = bind-eq-ok (check_ident dst_label) _ r₂ in
    let (s_pat, h₄, r₄) = bind-eq-ok (key_pattern "s_" src_names) _ r₃ in
    let (d_pat, h₅, r₅) = bind-eq-ok (key_pattern "d_" dst_names) _ r₄ in
    let (r_pat, h₆, _) = bind-eq-ok (key_pattern "r_" key_names) _ r₅ in
    (
      check_ident-Safe rel_type h₁,
      check_ident-Safe src_label h₂,
      check_ident-Safe dst_label h₃,
      key_pattern-Safe "s_" src_names h₄,
      key_pattern-Safe "d_" dst_names h₅,
      key_pattern-Safe "r_" key_names h₆,
    )
