-- ===== src/Base/Lists.antt =====
-- Lists measured by native numbers, and predicates on all elements.
use Prim.Native.Nat.{ℕ, zero, suc, ◌+◌}
use native.Mathlib.Omega.{arith}
use mathlib.Core.Path.{◌≡◌, refl, sym, ap, subst, ◌∙◌}
use mathlib.Core.Logic.{◌⊎◌, inl, inr, ◌↔◌}
use mathlib.Core.List.{List, [], ◌∷◌, ◌++◌, map}

module _ {ℓ} {A : Type ℓ} where
  abbrev pub length : List A → ℕ
  length [] = 0
  length (x ∷ xs) = suc (length xs)

  abbrev pub take : ℕ → List A → List A
  take zero xs = []
  take (suc n) [] = []
  take (suc n) (x ∷ xs) = x ∷ take n xs

  abbrev pub drop : ℕ → List A → List A
  drop zero xs = xs
  drop (suc n) [] = []
  drop (suc n) (x ∷ xs) = drop n xs

abbrev pub All {ℓ κ} : {A : Type ℓ} → (A → Type κ) → List A → Type κ
All P [] = Unit
All P (x ∷ xs) = P x × All P xs

module _ {ℓ κ} {A : Type ℓ} (P : A → Type κ) where
  pub All-append : (xs ys : List A) → All P xs → All P ys → All P (xs ++ ys)
  All-append [] ys hx hy = hy
  All-append (x ∷ xs) ys hx hy = (hx.0, All-append xs ys hx.1 hy)

  pub All-unappend : (xs ys : List A) → All P (xs ++ ys) → All P xs × All P ys
  All-unappend [] ys h = (tt, h)
  All-unappend (x ∷ xs) ys (p, h) = let (hx, hy) = All-unappend xs ys h in ((p, hx), hy)

-- `x` stands in the list, at a place that is kept
abbrev pub In : {A : Type 0} → A → List A → Type 0
In x [] = ⊥
In x (y ∷ ys) = (x ≡ y) ⊎ In x ys

pub All-map {ℓ κ μ} :
    {A : Type ℓ} {P : A → Type κ} {Q : A → Type μ} (xs : List A)
    → ((x : A) → P x → Q x)
    → All P xs
    → All Q xs
All-map [] f h = tt
All-map (x ∷ xs) f (p, h) = (f x p, All-map xs f h)

pub All-of {ℓ κ} : {A : Type ℓ} (Q : A → Type κ) (f : (x : A) → Q x) (xs : List A) → All Q xs
All-of Q f [] = tt
All-of Q f (x ∷ xs) = (f x, All-of Q f xs)

pub All-mapped {ℓ κ μ} :
    {A : Type ℓ} {B : Type κ} (P : B → Type μ) (f : A → B) (xs : List A)
    → All (λ x. P (f x)) xs
    → All P (map f xs)
All-mapped P f [] h = tt
All-mapped P f (x ∷ xs) (p, h) = (p, All-mapped P f xs h)

pub length-append_map {ℓ κ μ} :
    {A : Type ℓ} {B : Type κ} {D : Type μ} (f : A → D) (g : B → D) (xs : List A) (ys : List B)
    → length (map f xs ++ map g ys) ≡ length xs + length ys
length-append_map f g [] [] = omega arith
length-append_map f g [] (y ∷ ys) = omega (arith, length-append_map f g [] ys)
length-append_map f g (x ∷ xs) ys = omega (arith, length-append_map f g xs ys)

module _ {ℓ} {A : Type 0} (P : A → Type ℓ) where
  pub All-at : (xs : List A) (x : A) → All P xs → In x xs → P x
  All-at [] x h there = absurd there
  All-at (y ∷ ys) x (p, h) there = elim there [
    | inl e ↦ subst P (sym e) p
    | inr later ↦ All-at ys x h later
  ]

  pub All_of_In : (xs : List A) → ((x : A) → In x xs → P x) → All P xs
  All_of_In [] f = tt
  All_of_In (x ∷ xs) f = (f x (inl refl), All_of_In xs (λ y later. f y (inr later)))

pub In-map_iff :
    {A B : Type 0} (f : A → B) (b : B) (xs : List A)
    → In b (map f xs) ↔ (a : A) × In a xs × (b ≡ f a)
In-map_iff f b [] = (λ h. absurd h, λ h. absurd h.1)
In-map_iff f b (x ∷ xs) =
    let (there, back) = In-map_iff f b xs in
    (
      λ h. elim h [
        | inl e ↦ (x, inl refl, e)
        | inr later ↦ let (a, at, e) = there later in (a, inr at, e)
      ],
      λ (a, at, e). elim at [
        | inl same ↦ inl (e ∙ ap f same)
        | inr later ↦ inr (back (a, later, e))
      ],
    )

pub All-unmapped {ℓ κ μ} :
    {A : Type ℓ} {B : Type κ} (P : B → Type μ) (f : A → B) (xs : List A)
    → All P (map f xs)
    → All (λ x. P (f x)) xs
All-unmapped P f [] h = tt
All-unmapped P f (x ∷ xs) (p, h) = (p, All-unmapped P f xs h)
