-- ===== src/Resolver/Matcher/Bounds.antt =====
-- resolver/suggest.py: the sizes in `SequenceMatcher.ratio()`.
use margin_mvp.Base.{
  ℕ, zero, suc, ◌+◌, ◌-◌, ◌≤◌, ◌≡◌, refl, true, List, [], ◌∷◌, String, arith, eqb, inl, inr,
  Bool-cases,
}
use margin_mvp.Base.Lists.{length, take, drop}
use margin_mvp.Resolver.Matcher.{
  Block, Ratio, codes, common_prefix, better, scan_b, scan_a, find_longest, matched, ratio_of,
  ratio,
}

common_prefix-le :
    (xs ys : List ℕ) → (common_prefix xs ys ≤ length xs) × (common_prefix xs ys ≤ length ys)
unfolding common_prefix
common_prefix-le [] ys = ground arith
common_prefix-le (x ∷ xs) [] = ground arith
common_prefix-le (x ∷ xs) (y ∷ ys) = let (h, k) = common_prefix-le xs ys in ground arith

-- the block lies in texts of these lengths
abbrev pub Fits : ℕ → ℕ → Block → Type 0
Fits la lb b = (b.start_a + b.size ≤ la) × (b.start_b + b.size ≤ lb)

module _ (la lb : ℕ) where
  better-Fits :
      (best : Block) (i j k : ℕ)
      → Fits la lb best
      → i + k ≤ la
      → j + k ≤ lb
      → Fits la lb (better best i j k)
  unfolding better
  better-Fits best i j k (ha, hb) ia jb = ground arith

  scan_b-Fits :
      (xs : List ℕ) (i j : ℕ) (ys : List ℕ) (best : Block)
      → Fits la lb best
      → i + length xs ≤ la
      → j + length ys ≤ lb
      → Fits la lb (scan_b xs i j ys best)
  unfolding scan_b
  scan_b-Fits xs i j [] best h ia jb = h
  scan_b-Fits xs i j (y ∷ ys) best h ia jb =
      let (k, l) = common_prefix-le xs (y ∷ ys) in
      scan_b-Fits xs i (j + 1) ys (better best i j (common_prefix xs (y ∷ ys)))
        (better-Fits best i j (common_prefix xs (y ∷ ys)) h (omega arith) (omega arith)) ia
        (omega arith)

  scan_a-Fits :
      (i : ℕ) (xs b : List ℕ) (best : Block)
      → Fits la lb best
      → i + length xs ≤ la
      → length b ≤ lb
      → Fits la lb (scan_a i xs b best)
  unfolding scan_a
  scan_a-Fits i [] b best h ia jb = h
  scan_a-Fits i (x ∷ xs) b best h ia jb =
      scan_a-Fits (i + 1) xs b (scan_b (x ∷ xs) i 0 b best)
        (scan_b-Fits (x ∷ xs) i 0 b best h ia (omega arith)) (omega arith) jb

find_longest-Fits : (a b : List ℕ) → Fits (length a) (length b) (find_longest a b)
unfolding find_longest
find_longest-Fits a b =
    scan_a-Fits (length a) (length b) 0 a b (record { start_a = 0; start_b = 0; size = 0 })
      (ground arith) (omega arith) (omega arith)

length-take_le : (n : ℕ) (xs : List ℕ) → length (take n xs) ≤ n
length-take_le zero xs = ground arith
length-take_le (suc n) [] = ground arith
length-take_le (suc n) (x ∷ xs) = ground (arith, length-take_le n xs)

length-drop : (n : ℕ) (xs : List ℕ) → length (drop n xs) ≡ length xs - n
length-drop zero xs = ground arith
length-drop (suc n) [] = ground arith
length-drop (suc n) (x ∷ xs) = ground (arith, length-drop n xs)

-- the matching blocks do not overlap, in either text
matched-le :
    (fuel : ℕ) (a b : List ℕ) → (matched fuel a b ≤ length a) × (matched fuel a b ≤ length b)
unfolding matched
matched-le zero a b = ground arith
matched-le (suc fuel) a b =
    let best : Block = find_longest a b in
    let (fa, fb) = find_longest-Fits a b in
    let (la, lb) = matched-le fuel (take best.start_a a) (take best.start_b b) in
    let (ra, rb) =
      matched-le fuel (drop (best.start_a + best.size) a) (drop (best.start_b + best.size) b) in
    let ta = length-take_le best.start_a a in
    let tb = length-take_le best.start_b b in
    let da = length-drop (best.start_a + best.size) a in
    let db = length-drop (best.start_b + best.size) b in
    elim (Bool-cases (eqb best.size 0)) [
      | inl nothing ↦ rw nothing (ground arith)
      | inr some_run ↦ rw some_run (omega arith, omega arith)
    ]

no_run : (b : List ℕ) → find_longest [] b ≡ record { start_a = 0; start_b = 0; size = 0 }
unfolding find_longest scan_a
no_run b = refl

run_size : (a b : List ℕ) → length a ≡ 0 → eqb (find_longest a b).size 0 ≡ true
run_size [] b h = rw no_run refl
run_size (x ∷ a) b h = ground arith

-- The matching of SequenceMatcher.ratio: its result is the same for any two amounts of fuel that are at
-- least the length of the first text.
pub matched_enough :
    (f g : ℕ) (a b : List ℕ) → length a ≤ f → length a ≤ g → matched f a b ≡ matched g a b
unfolding matched
matched_enough zero zero a b hf hg = refl
matched_enough zero (suc g) a b hf hg = rw (run_size a b (omega arith)) refl
matched_enough (suc f) zero a b hf hg = rw (run_size a b (omega arith)) refl
matched_enough (suc f) (suc g) a b hf hg =
    let best : Block = find_longest a b in
    let (fa, fb) = find_longest-Fits a b in
    let ta = length-take_le best.start_a a in
    let da = length-drop (best.start_a + best.size) a in
    elim (Bool-cases (eqb best.size 0)) [
      | inl nothing ↦ rw nothing refl
      | inr some_run ↦
          let left =
            matched_enough f g (take best.start_a a) (take best.start_b b) (ground arith)
              (ground arith) in
          let right =
            matched_enough f g (drop (best.start_a + best.size) a)
              (drop (best.start_b + best.size) b) (ground arith) (ground arith) in
          rw (some_run, left, right) refl
    ]

abbrev pub IsProper : Ratio → Type 0
IsProper p = (p.num ≤ p.den) × (1 ≤ p.den)

pub ratio-IsProper : (s t : String) → IsProper (ratio s t)
unfolding ratio ratio_of
ratio-IsProper s t = let (h, k) = matched-le (length (codes s)) (codes s) (codes t) in ground arith
