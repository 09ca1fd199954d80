-- ===== src/Base/Returns.antt =====
-- Methods that return: from a state of which the predicate holds, there is no exception, and it holds after.
use mathlib.Core.Path.{◌≡◌, refl, ap}
use mathlib.Core.List.{List, [], ◌∷◌}
use margin_mvp.Base.Exec.{Exec, Result, ok, lift, pure, for_each, after, ◌>>=◌}
use margin_mvp.Base.Lists.{All}

abbrev pub Returns {ℓ κ μ} :
    {S : Type ℓ} {A : Type κ} (P : S → Type μ) → Exec S A → Type (ℓ ⊔ κ ⊔ μ)
Returns {S = S} {A = A} P m = (s : S) → P s → (a : A) × ((m s).0 ≡ ok a) × P (m s).1

module _ {ℓ κ μ} {S : Type ℓ} {A : Type κ} {B : Type μ} where
  -- a sequence whose first step is known to return
  pub bind_of_ok :
      (first : Exec S A) (next : A → Exec S B) (s : S) {a : A} {t : S}
      → first s ≡ (ok a, t)
      → (first >>= next) s ≡ next a t
  unfolding ◌>>=◌
  bind_of_ok first next s h = ap (λ r. after next r.0 r.1) h

module _ {ℓ κ μ ν} {S : Type ℓ} {A : Type κ} {B : Type μ} (P : S → Type ν) where
  pub bind-Returns :
      (first : Exec S A) (next : A → Exec S B)
      → Returns P first
      → ((a : A) → Returns P (next a))
      → Returns P (first >>= next)
  unfolding ◌>>=◌
  bind-Returns first next one other s h =
      let (a, done, left) = one s h in
      let (b, ended, last) = other a (first s).1 left in rw done (b, ended, last)

  -- where what the first step returns is known
  pub bind-Returns_at :
      (first : Exec S A) (next : A → Exec S B) (s : S) (a : A)
      → (first s).0 ≡ ok a
      → P (first s).1
      → Returns P (next a)
      → (b : B) × (((first >>= next) s).0 ≡ ok b) × P ((first >>= next) s).1
  unfolding ◌>>=◌
  bind-Returns_at first next s a done left other =
      let (b, ended, last) = other (first s).1 left in rw done (b, ended, last)

  pub lift-Returns :
      (result : Result A) (next : A → Exec S B) (a : A)
      → result ≡ ok a
      → Returns P (next a)
      → Returns P (lift result >>= next)
  unfolding ◌>>=◌ lift
  lift-Returns result next a e other s h = rw e (other s h)

module _ {ℓ κ μ} {S : Type ℓ} {A : Type κ} (P : S → Type μ) where
  pub pure-Returns : (a : A) → Returns P (pure a)
  unfolding pure
  pure-Returns a s h = (a, refl, h)

  pub for_each-Returns :
      (xs : List A) (body : A → Exec S (Unit {0}))
      → All (λ x. Returns P (body x)) xs
      → Returns P (for_each xs body)
  unfolding for_each
  for_each-Returns [] body k s h = (tt, refl, h)
  for_each-Returns (x ∷ xs) body (k, ks) s h =
      let (a, done, left) = k s h in
      let (b, ended, last) = for_each-Returns xs body ks (body x s).1 left in
      rw done (b, ended, last)
