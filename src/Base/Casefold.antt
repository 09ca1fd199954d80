-- ===== src/Base/Casefold.antt =====
-- Lemmas on `str.casefold`.
use Prim.Native.Nat.{ℕ, zero, suc, ◌-◌, ◌<◌}
use Prim.Native.Char.{Char, code}
use Prim.Native.String.{String, [], ◌∷◌, char_at}
use mathlib.Core.Path.{◌≡◌, refl, ap₂}
use mathlib.Core.Bool.{Bool, true, false, not, ◌&&◌}
use mathlib.Core.Logic.{inl, inr}
use native.Mathlib.Omega.{arith}
use margin_mvp.Base.Tests.{leb, Bool-cases}
use margin_mvp.Base.Text.{fold_char, casefold}

-- a test of all numbers under a bound
holds_below : (ℕ → Bool) → ℕ → Bool
holds_below p zero = true
holds_below p (suc n) = p n && holds_below p n

holds_below_lem : (p : ℕ → Bool) (n m : ℕ) → holds_below p n ≡ true → m < n → p m ≡ true
unfolding holds_below
holds_below_lem p zero m h lt = ground arith
holds_below_lem p (suc n) m h lt = ground (arith, holds_below_lem p n m)

abbrev is_upper : Char → Bool
is_upper c = leb b'A' (code c) && leb (code c) b'Z'

abbrev lower : ℕ → Char
lower n = char_at "abcdefghijklmnopqrstuvwxyz" n

lower-not_upper : (n : ℕ) → n < 26 → is_upper (lower n) ≡ false
unfolding holds_below
lower-not_upper n lt =
    let all : holds_below (λ m. not (is_upper (lower m))) 26 ≡ true = refl in
    let this : not (is_upper (lower n)) ≡ true =
      holds_below_lem (λ m. not (is_upper (lower m))) 26 n all lt in
    ground arith

fold_char_twice : (c : Char) → fold_char (fold_char c) ≡ fold_char c
unfolding fold_char
fold_char_twice c = elim (Bool-cases (is_upper c)) [
  | inl upper ↦
      let shut : is_upper (lower (code c - b'A')) ≡ false =
        lower-not_upper (code c - b'A') (ground arith) in
      rw upper (rw shut refl)
  | inr other ↦ rw other (rw other refl)
]

pub casefold_twice : (s : String) → casefold (casefold s) ≡ casefold s
unfolding casefold
casefold_twice [] = refl
casefold_twice (c ∷ s) = ap₂ (λ d t. d ∷ t) (fold_char_twice c) (casefold_twice s)
