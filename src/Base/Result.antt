-- ===== src/Base/Result.antt =====
-- Pure functions that may raise.
use mathlib.Core.Path.{◌≡◌, refl, ap}
use mathlib.Core.Logic.{◌⊎◌, inl, inr}
use margin_mvp.Base.Exec.{Error, Result, ok, err}

abbrev pub bind {ℓ κ} : {A : Type ℓ} {B : Type κ} → Result A → (A → Result B) → Result B
bind (ok a) f = f a
bind (err e) f = err e

pub Result-cases {ℓ} :
    {A : Type ℓ} (r : Result A) → ((a : A) × (r ≡ ok a)) ⊎ ((e : Error) × (r ≡ err e))
Result-cases (ok a) = inl (a, refl)
Result-cases (err e) = inr (e, refl)

-- the two steps of a bind that returns
pub bind-eq-ok {ℓ κ} :
    {A : Type ℓ} {B : Type κ} (first : Result A) (next : A → Result B) {b : B}
    → bind first next ≡ ok b
    → (value : A) × (first ≡ ok value) × (next value ≡ ok b)
bind-eq-ok (err e) next h = cc
bind-eq-ok (ok value) next h = (value, refl, h)

abbrev or_given {ℓ} : {A : Type ℓ} → A → Result A → A
or_given a (ok b) = b
or_given a (err e) = a

pub ok-injective {ℓ} : {A : Type ℓ} {a b : A} → ok a ≡ ok b → a ≡ b
ok-injective {a} h = ap (or_given a) h
