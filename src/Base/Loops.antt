-- ===== src/Base/Loops.antt =====
-- Lemmas on the sequence of two methods and on a loop, for a predicate on the object.
use mathlib.Core.Path.{◌≡◌, refl, sym, ap, ◌∙◌, subst}
use mathlib.Core.List.{List, [], ◌∷◌}
use mathlib.Core.Logic.{inl, inr}
use margin_mvp.Base.Exec.{lift, Exec, Result, ok, err, ◌>>=◌, for_each}
use margin_mvp.Base.Result.{Result-cases}
use margin_mvp.Base.Lists.{All, All-of, All-map}

abbrev pub Keeps {ℓ κ μ} : {S : Type ℓ} {A : Type κ} (P : S → Type μ) → Exec S A → Type (ℓ ⊔ μ)
Keeps {S = S} P m = (s : S) → P s → P (m s).1

module _ {ℓ κ μ ν} {S : Type ℓ} {A : Type κ} {B : Type μ} (P : S → Type ν) where
  pub bind-Keeps :
      (first : Exec S A) (next : A → Exec S B)
      → Keeps P first
      → ((value : A) → Keeps P (next value))
      → Keeps P (first >>= next)
  unfolding ◌>>=◌
  bind-Keeps first next one other s h = elim (Result-cases (first s).0) [
    | inl (value, done) ↦ rw done (other value (first s).1 (one s h))
    | inr (e, failed) ↦ rw failed (one s h)
  ]

module _ {ℓ κ μ} {S : Type ℓ} {A : Type κ} (P : S → Type μ) where
  pub for_each-Keeps :
      (xs : List A) (body : A → Exec S (Unit {0}))
      → All (λ x. Keeps P (body x)) xs
      → Keeps P (for_each xs body)
  unfolding for_each
  for_each-Keeps [] body k s h = h
  for_each-Keeps (x ∷ xs) body (k, ks) s h = elim (Result-cases (body x s).0) [
    | inl (a, done) ↦ rw done (for_each-Keeps xs body ks (body x s).1 (k s h))
    | inr (e, failed) ↦ rw failed (k s h)
  ]

module _ {ℓ κ μ ν} {S : Type ℓ} {A : Type κ} {B : Type μ} (P : S → Type ν) where
  pub lift-Keeps :
      (result : Result A) (next : A → Exec S B)
      → ((value : A) → result ≡ ok value → Keeps P (next value))
      → Keeps P (lift result >>= next)
  unfolding ◌>>=◌ lift
  lift-Keeps (err e) next other = λ s h. h
  lift-Keeps (ok value) next other = other value refl

module _ {ℓ κ μ} {S : Type ℓ} {A : Type κ} (Q : A → S → Type μ) where
  -- all that the turns of a loop bring about and no later turn undoes
  pub for_each-All :
      (body : A → Exec S (Unit {0}))
      → ((x y : A) → Keeps (Q y) (body x))
      → ((x : A) (s : S) → (body x s).0 ≡ ok tt → Q x (body x s).1)
      → (xs : List A) (s : S) → (for_each xs body s).0 ≡ ok tt
      → All (λ x. Q x (for_each xs body s).1) xs
  unfolding for_each
  for_each-All body keeps own [] s h = tt
  for_each-All body keeps own (x ∷ xs) s h = elim (Result-cases (body x s).0) [
    | inl (_, done) ↦
        let step : for_each (x ∷ xs) body s ≡ for_each xs body (body x s).1 = rw done refl in
        subst (λ p. All (λ y. Q y p.1) (x ∷ xs)) (sym step)
          (
            for_each-Keeps (Q x) xs body (All-of _ (λ y. keeps y x) xs) (body x s).1 (own x s done),
            for_each-All body keeps own xs (body x s).1 (ap (λ p. p.0) (sym step) ∙ h),
          )
    | inr (e, failed) ↦ let raised : (for_each (x ∷ xs) body s).0 ≡ err e = rw failed refl in cc
  ]

module _ {ℓ κ μ} {S : Type ℓ} {A : Type κ} {B : Type μ} (first : Exec S A) (next : A → Exec S B)
    (s : S) where
  pub bind-returns :
      {b : B}
      → ((first >>= next) s).0 ≡ ok b
      → (a : A) × ((first s).0 ≡ ok a) × ((first >>= next) s ≡ next a (first s).1)
  unfolding ◌>>=◌
  bind-returns h = elim (Result-cases (first s).0) [
    | inl (a, done) ↦ (a, done, rw done refl)
    | inr (e, failed) ↦ let raised : ((first >>= next) s).0 ≡ err e = rw failed refl in cc
  ]

module _ {ℓ κ μ ν} {S : Type ℓ} {A : Type κ} {B : Type μ} (first : Exec S A) (next : A → Exec S B)
    (s : S) {C : Type 0} (Q : C → S → Type ν) (xs : List C) {b : B} where
  -- what the first step brings about and the second keeps
  pub bind-All :
      ((a : A) → (first s).0 ≡ ok a → All (λ x. Q x (first s).1) xs)
      → ((x : C) (a : A) → Keeps (Q x) (next a))
      → ((first >>= next) s).0 ≡ ok b
      → All (λ x. Q x ((first >>= next) s).1) xs
  bind-All own keeps h =
      let (a, done, step) = bind-returns first next s h in
      subst (λ p. All (λ x. Q x p.1) xs) (sym step)
        (All-map xs (λ x there. keeps x a (first s).1 there) (own a done))

  -- what the second step brings about
  pub next-All :
      ((a : A) (t : S) → (next a t).0 ≡ ok b → All (λ x. Q x (next a t).1) xs)
      → ((first >>= next) s).0 ≡ ok b
      → All (λ x. Q x ((first >>= next) s).1) xs
  next-All own h =
      let (a, done, step) = bind-returns first next s h in
      subst (λ p. All (λ x. Q x p.1) xs) (sym step)
        (own a (first s).1 (ap (λ p. p.0) (sym step) ∙ h))
