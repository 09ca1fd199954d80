-- ===== src/Base/Splits.antt =====
-- `s.split(sep, 1)`: where a text is split.
use text.Mathlib.TextLemmas.{cons-append, nil-append}
use Prim.Native.Nat.{ℕ}
use Prim.Native.Char.{Char, code}
use Prim.Native.String.{String, ◌++◌ as ◌<>◌}
use mathlib.Core.Path.{◌≡◌, refl, ap, ◌∙◌, sym, subst}
use mathlib.Core.Logic.{◌↔◌, ◌⊎◌, inl, inr}
use mathlib.Core.Bool.{true, false}
use mathlib.Core.Option.{none, some}
use native.Mathlib.Omega.{arith}
use margin_mvp.Base.Tests.{eqb, Bool-cases}
use margin_mvp.Base.Text.{split_once}

abbrev pub Lacks : ℕ → String → Type 0
Lacks sep s = (split_once sep s).1 ≡ none

pub split_once-here :
    (sep : ℕ) (c : Char) (t : String)
    → code c ≡ sep
    → split_once sep (String.◌∷◌ c t) ≡ (String.[], some t)
unfolding split_once
split_once-here sep c t e = let same : eqb (code c) sep ≡ true = ground arith in rw same refl

pub split_once-later :
    (sep : ℕ) (d : Char) (s left right : String)
    → eqb (code d) sep ≡ false
    → split_once sep s ≡ (left, some right)
    → split_once sep (String.◌∷◌ d s) ≡ (String.◌∷◌ d left, some right)
unfolding split_once
split_once-later sep d s left right other h = rw (other, h) refl

pub Lacks-cons :
    (sep : ℕ) (d : Char) (s : String)
    → Lacks sep (String.◌∷◌ d s)
    → (eqb (code d) sep ≡ false) × Lacks sep s
unfolding split_once
Lacks-cons sep d s h = ground arith

-- a text is split at the first separator
pub split_once-append :
    (sep : ℕ) (s : String) (c : Char) (t : String)
    → Lacks sep s
    → code c ≡ sep
    → split_once sep (s <> String.◌∷◌ c t) ≡ (s, some t)
split_once-append sep String.[] c t h e =
    ap (split_once sep) (nil-append (String.◌∷◌ c t)) ∙ split_once-here sep c t e
split_once-append sep (String.◌∷◌ d s) c t h e =
    let (other, lacks) = Lacks-cons sep d s h in
    ap (split_once sep) (cons-append d s (String.◌∷◌ c t))
    ∙ split_once-later sep d (s <> String.◌∷◌ c t) s t other (split_once-append sep s c t lacks e)

-- no character of the text is the separator
abbrev pub Free : ℕ → String → Type 0
Free sep String.[] = Unit
Free sep (String.◌∷◌ c s) = (eqb (code c) sep ≡ false) × Free sep s

-- `first` is what stands in the text before its first separator, or the whole text
abbrev pub StartsWith : ℕ → String → String → Type 0
StartsWith sep first s =
    Free sep first
    × ((s ≡ first)
        ⊎ ((c : Char) × (rest : String) × (code c ≡ sep) × (s ≡ first <> String.◌∷◌ c rest)))

split_once-Free : (sep : ℕ) (s : String) → Free sep s → split_once sep s ≡ (s, none)
unfolding split_once
split_once-Free sep String.[] h = refl
split_once-Free sep (String.◌∷◌ c s) (other, h) = rw (other, split_once-Free sep s h) refl

split_once-StartsWith : (sep : ℕ) (s : String) → StartsWith sep (split_once sep s).0 s
unfolding split_once
split_once-StartsWith sep String.[] = (tt, inl refl)
split_once-StartsWith sep (String.◌∷◌ c s) = elim (Bool-cases (eqb (code c) sep)) [
  | inl same ↦ rw same (tt, inr (c, s, ground arith, sym (nil-append (String.◌∷◌ c s))))
  | inr other ↦
      let (free, whole) = split_once-StartsWith sep s in
      rw other (
        (other, free),
        elim whole [
          | inl e ↦ inl (ap (λ t. String.◌∷◌ c t) e)
          | inr (d, rest, at, e) ↦ inr (
            d,
            rest,
            at,
            ap (λ t. String.◌∷◌ c t) e
                ∙ sym (cons-append c (split_once sep s).0 (String.◌∷◌ d rest)),
          )
        ],
      )
]

-- what a split returns first
pub split_once_iff :
    (sep : ℕ) (s first : String) → ((split_once sep s).0 ≡ first) ↔ StartsWith sep first s
split_once_iff sep s first = (
  λ h. subst (λ t. StartsWith sep t s) h (split_once-StartsWith sep s),
  λ (free, whole). elim whole [
    | inl e ↦ ap (λ t. (split_once sep t).0) e ∙ ap (λ p. p.0) (split_once-Free sep first free)
    | inr (c, rest, at, e) ↦
        ap (λ t. (split_once sep t).0) e
        ∙ ap (λ p. p.0)
            (split_once-append sep first c rest (ap (λ p. p.1) (split_once-Free sep first free)) at)
  ],
)
