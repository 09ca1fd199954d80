-- ===== src/Value.antt =====
-- The property values that the graph stores: what a pack, a connector or the client can write.
-- Python's `object` is reduced to scalars, flat lists of scalars, and sets of strings.
-- Floats, nested lists and nested dicts are left out: nothing in the program looks inside them.
use margin_mvp.Base.{ℕ, String, Bool, true, false, Option, none, some, List, [], map, zero}
use margin_mvp.Base.Dict.{Dict}
use margin_mvp.Base.Exec.{Result, ok, err, type_error}
use margin_mvp.Base.Text
use margin_mvp.Base.Text.{characters}

pub data Atom : Type 0 where
  null : Atom
  bool : Bool → Atom
  int : ℕ → Atom
  text : String → Atom

pub data Value : Type 0 where
  atom : Atom → Value
  list : List Atom → Value
  set : List String → Value

abbrev pub Props : Type 0
Props = Dict String Value

abbrev pub text_value : String → Value
text_value s = atom (text s)

-- `str | None` as a value
abbrev pub optional_text : Option String → Value
optional_text none = atom null
optional_text (some s) = text_value s

-- `str(x)`
unfoldable pub to_text : Atom → String
to_text null = "None"
to_text (bool true) = "True"
to_text (bool false) = "False"
to_text (int n) = Text.decimal n
to_text (text s) = s

-- `list(x)`: what iteration over a value gives, or the `TypeError` of what cannot be iterated over
unfoldable pub items : Value → Result (List Atom)
items (atom (text s)) = ok (map text (characters s))
items (atom _) = err type_error
items (list xs) = ok xs
items (set ss) = ok (map text ss)

-- `x or ()`, for a value that is iterated over
unfoldable pub items_or_empty : Value → Result (List Atom)
unfolding items
items_or_empty (atom null) = ok []
items_or_empty (atom (bool false)) = ok []
items_or_empty (atom (int zero)) = ok []
items_or_empty v = items v
