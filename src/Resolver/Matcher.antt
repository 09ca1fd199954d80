-- ===== src/Resolver/Matcher.antt =====
-- `difflib.SequenceMatcher(None, a, b).ratio()`, on texts as lists of code points.
-- The library drops elements that are too common from a second text of 200 characters and more;
-- below that length this is its algorithm.
pub mod Bounds
use Prim.Native.Char.{code}
use margin_mvp.Base.{ℕ, zero, suc, ◌+◌, ◌*◌, String, List, [], ◌∷◌, if◌then◌else◌, eqb, ltb}
use margin_mvp.Base.Lists.{length, take, drop}

abbrev pub codes : String → List ℕ
codes String.[] = []
codes (String.◌∷◌ c s) = code c ∷ codes s

unfoldable pub common_prefix : List ℕ → List ℕ → ℕ
common_prefix [] ys = 0
common_prefix (x ∷ xs) [] = 0
common_prefix (x ∷ xs) (y ∷ ys) = let more = common_prefix xs ys in if eqb x y then suc more else 0

-- a run of equal characters: where it starts in each text, and its length
pub record Block : Type 0 where
  pub start_a : ℕ
  pub start_b : ℕ
  pub size : ℕ

-- the better of the best block so far and the one that starts here
unfoldable pub better : Block → ℕ → ℕ → ℕ → Block
better best i j k = if ltb best.size k then record { start_a = i; start_b = j; size = k } else best

unfoldable pub scan_b : List ℕ → ℕ → ℕ → List ℕ → Block → Block
unfolding common_prefix better
scan_b xs i j [] best = best
scan_b xs i j (y ∷ ys) best = scan_b xs i (j + 1) ys (better best i j (common_prefix xs (y ∷ ys)))

unfoldable pub scan_a : ℕ → List ℕ → List ℕ → Block → Block
unfolding scan_b
scan_a i [] b best = best
scan_a i (x ∷ xs) b best = scan_a (i + 1) xs b (scan_b (x ∷ xs) i 0 b best)

-- `find_longest_match`: the longest common run, the first in `a` and then in `b` of its length
unfoldable pub find_longest : List ℕ → List ℕ → Block
unfolding scan_a
find_longest a b = scan_a 0 a b (record { start_a = 0; start_b = 0; size = 0 })

-- the total size of the matching blocks: the longest one, and those on both sides of it
unfoldable pub matched : ℕ → List ℕ → List ℕ → ℕ
unfolding find_longest
matched zero a b = 0
matched (suc fuel) a b =
    let best = find_longest a b in
    let left = matched fuel (take best.start_a a) (take best.start_b b) in
    let right =
      matched fuel (drop (best.start_a + best.size) a) (drop (best.start_b + best.size) b) in
    if eqb best.size 0 then 0 else left + best.size + right

-- a float between 0 and 1, as the fraction that it is computed from
pub record Ratio : Type 0 where
  pub num : ℕ
  pub den : ℕ

-- `2.0 * matches / length`, and 1 for two empty texts
unfoldable pub ratio_of : ℕ → ℕ → Ratio
ratio_of matches total =
    if eqb total 0 then record { num = 1; den = 1 } else record { num = 2 * matches; den = total }

unfoldable pub ratio : String → String → Ratio
unfolding matched ratio_of
ratio s t =
    let a = codes s in let b = codes t in ratio_of (matched (length a) a b) (length a + length b)
