-- ===== src/Base/Exec.antt =====
-- Methods that mutate an object and may raise. What was written before a raise stays written, so
-- the state comes back beside the exception too. A message is reduced to the value it names.
use Prim.Native.String.{String}
use mathlib.Core.List.{List, [], ◌∷◌}

pub data Error : Type 0 where
  write_validation_error : String → Error
  value_error : String → Error
  key_error : String → Error
  attribute_error type_error not_implemented_error : Error
  -- what a third-party package raises
  external_error : String → Error

pub data Result {ℓ} (A : Type ℓ) : Type ℓ where
  ok : A → Result A
  err : Error → Result A

abbrev pub Exec {ℓ κ} : Type ℓ → Type κ → Type (ℓ ⊔ κ)
Exec S A = S → Result A × S

module _ {ℓ κ} {S : Type ℓ} {A : Type κ} where
  -- a computation that looks at the object only
  unfoldable pub gets : (S → A) → Exec S A
  gets look s = (ok (look s), s)

  -- `raise error`
  unfoldable pub raise : Error → Exec S A
  raise error s = (err error, s)

  -- `return value`
  unfoldable pub pure : A → Exec S A
  pure value s = (ok value, s)

  -- a pure function's result
  unfoldable pub lift : Result A → Exec S A
  lift result s = (result, s)

module _ {ℓ κ μ} {S : Type ℓ} {A : Type κ} {B : Type μ} where
  abbrev pub after : (A → Exec S B) → Result A → Exec S B
  after next (err e) s = (err e, s)
  after next (ok value) s = next value s

  infixl 10 ◌>>=◌
  unfoldable pub ◌>>=◌ : Exec S A → (A → Exec S B) → Exec S B
  unfolding gets raise pure lift
  ◌>>=◌ first next s = let (result, left) = first s in after next result left

module _ {ℓ μ} {S : Type ℓ} {B : Type μ} where
  infixl 10 ◌>>◌
  abbrev pub ◌>>◌ : Exec S (Unit {0}) → Exec S B → Exec S B
  m >> n = m >>= λ _. n

-- `for x in xs: body(x)`
unfoldable pub for_each {ℓ κ} :
    {S : Type ℓ} {A : Type κ} → List A → (A → Exec S (Unit {0})) → Exec S (Unit {0})
for_each [] body s = (ok tt, s)
for_each (x ∷ xs) body s =
    let (r, s') = body x s in let rest = for_each xs body s' in after (λ _ _. rest) r s'

-- a method of a part of the object
unfoldable pub zoom {ℓ κ μ} :
    {S : Type ℓ} {T : Type κ} {A : Type μ} (part : S → T) (put : T → S → S) → Exec T A → Exec S A
zoom part put m s = let (r, t) = m (part s) in (r, put t s)
