-- ===== src/Base/Text.antt =====
-- Python's `str` methods that the program uses.
use Prim.Native.Nat.{ℕ, zero, suc, ◌-◌, ◌/◌, ◌%◌}
use Prim.Native.Char.{Char, code}
use Prim.Native.String.{String, [], ◌∷◌, char_at}
use mathlib.Core.Bool.{◌&&◌}
use mathlib.Core.Option.{Option, none, some}
use mathlib.Core.List.{List, [] as nil, ◌∷◌ as ◌::◌}
use margin_mvp.Base.Tests.{leb, eqb, if◌then◌else◌}

-- `casefold` on one character: exact on ASCII, and other characters are kept
unfoldable pub fold_char : Char → Char
fold_char c =
    if leb b'A' (code c) && leb (code c) b'Z'
    then char_at "abcdefghijklmnopqrstuvwxyz" (code c - b'A')
    else c

unfoldable pub casefold : String → String
unfolding fold_char
casefold [] = []
casefold (c ∷ s) = fold_char c ∷ casefold s

-- `s.split(sep, 1)` of a one-character separator: what stands before it, and what stands behind it if it occurs
unfoldable pub split_once : ℕ → String → String × Option String
split_once sep [] = ([], none)
split_once sep (c ∷ s) =
    let (before, behind) = split_once sep s in
    if eqb (code c) sep then ([], some s) else (c ∷ before, behind)

-- `s.split(sep, 1)[-1]`
abbrev pub last_part : String × Option String → String
last_part (before, none) = before
last_part (before, some behind) = behind

-- the characters of a text, as one-character texts: `iter(s)`
unfoldable pub characters : String → List String
characters [] = nil
characters (c ∷ s) = ◌::◌ (c ∷ []) (characters s)

-- `str(n)`, with as much fuel as there can be digits
decimal_onto : ℕ → ℕ → String → String
decimal_onto zero n rest = rest
decimal_onto (suc fuel) n rest =
    let shown = char_at "0123456789" (n % 10) ∷ rest in
    let more = decimal_onto fuel (n / 10) shown in if leb n 9 then shown else more

unfoldable pub decimal : ℕ → String
unfolding decimal_onto
decimal n = decimal_onto (suc n) n []
