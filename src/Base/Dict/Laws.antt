-- ===== src/Base/Dict/Laws.antt =====
-- The laws of `Dict`.
use mathlib.Core.List.{[], ◌∷◌, all}
use mathlib.Core.Option.{none, some}
use mathlib.Core.Option.{some-injective}
use mathlib.Core.Path.{subst₂, ◌≡◌, refl, ap, ◌∙◌, sym}
use mathlib.Core.Logic.{◌≢◌, inl, inr}
use native.Mathlib.Omega.{arith}
use margin_mvp.Base.Tests.{if◌then◌else◌, Option-cases, Bool-cases}
use margin_mvp.Base.Lists.{All, All-map}
use margin_mvp.Base.Equality.{Eq, ◌==◌}
use margin_mvp.Base.Dict.{Dict, lookup, insert, update, NodupKeys, keys}

module _ {ℓ κ} {K : Type ℓ} {V : Type κ} ⦃e : Eq K⦄ where
  pub lookup-cons :
      (j k : K) (v : V) (d : Dict K V)
      → lookup j ((k, v) ∷ d) ≡ (if j == k then some v else lookup j d)
  unfolding lookup
  lookup-cons j k v d = refl

  pub lookup-insert :
      (j k : K) (v : V) (d : Dict K V)
      → lookup j (insert k v d) ≡ (if j == k then some v else lookup j d)
  unfolding lookup insert
  lookup-insert j k v [] = refl
  lookup-insert j k v ((i, w) ∷ d) = ground (arith, lookup-insert j k v d)

  pub lookup-insert_self : (k : K) (v : V) (d : Dict K V) → lookup k (insert k v d) ≡ some v
  lookup-insert_self k v d = rw lookup-insert (ground arith)

  pub lookup-insert_ne :
      (j k : K) (v : V) (d : Dict K V) → j ≢ k → lookup j (insert k v d) ≡ lookup j d
  lookup-insert_ne j k v d ne = rw lookup-insert (ground arith)

  pub insert-NodupKeys : (k : K) (v : V) (d : Dict K V) → NodupKeys d → NodupKeys (insert k v d)
  unfolding insert lookup
  insert-NodupKeys k v [] u = (refl, tt)
  insert-NodupKeys k v ((j, w) ∷ d) (fresh, u) =
      ground (arith, insert-NodupKeys k v d u, lookup-insert j k v d)

  pub insert-insert : (k : K) (v w : V) (d : Dict K V) → insert k w (insert k v d) ≡ insert k w d
  unfolding insert
  insert-insert k v w [] = ground arith
  insert-insert k v w ((j, x) ∷ d) = ground (arith, insert-insert k v w d)

  -- writing back what is there changes nothing, not even the order
  pub insert_same : (k : K) (v : V) (d : Dict K V) → lookup k d ≡ some v → insert k v d ≡ d
  unfolding insert lookup
  insert_same k v [] h = ground arith
  insert_same k v ((j, x) ∷ d) h = ground (arith, insert_same k v d)

  -- writes to two keys commute where the first one is there already
  pub insert_comm :
      (j k : K) (v w : V) (d : Dict K V)
      → j ≢ k
      → lookup k d ≢ none
      → insert k v (insert j w d) ≡ insert j w (insert k v d)
  unfolding insert lookup
  insert_comm j k v w [] ne h = absurd (h refl)
  insert_comm j k v w ((i, x) ∷ d) ne h = ground (arith, insert_comm j k v w d)

  pub lookup-insert_present : (k : K) (v : V) (d : Dict K V) → lookup k (insert k v d) ≢ none
  lookup-insert_present k v d = rw lookup-insert_self (λ h. cc)

  pub lookup-insert_keeps :
      (j k : K) (v : V) (d : Dict K V) → lookup j d ≢ none → lookup j (insert k v d) ≢ none
  lookup-insert_keeps j k v d h = rw lookup-insert (ground arith)

  pub lookup-update_keeps :
      (j : K) (d new : Dict K V) → lookup j d ≢ none → lookup j (update d new) ≢ none
  unfolding update
  lookup-update_keeps j d [] h = h
  lookup-update_keeps j d ((k, v) ∷ new) h =
      lookup-update_keeps j (insert k v d) new (lookup-insert_keeps j k v d h)

  -- what an update leaves at a key that it does not name
  pub lookup-update_of_absent :
      (j : K) (d new : Dict K V) → lookup j new ≡ none → lookup j (update d new) ≡ lookup j d
  unfolding update lookup
  lookup-update_of_absent j d [] h = refl
  lookup-update_of_absent j d ((k, v) ∷ new) h =
      ground (arith, lookup-update_of_absent j (insert k v d) new, lookup-insert j k v d)

  -- and at one that it names: the new value
  pub lookup-update_of_present :
      (j : K) (v : V) (d new : Dict K V)
      → NodupKeys new
      → lookup j new ≡ some v
      → lookup j (update d new) ≡ some v
  unfolding update lookup
  lookup-update_of_present j v d [] u h = ground arith
  lookup-update_of_present j v d ((k, w) ∷ new) (fresh, u) h = ground (
    arith,
    lookup-update_of_present j v (insert k w d) new u,
    lookup-update_of_absent j (insert k w d) new,
    lookup-insert j k w d,
  )

  pub update-NodupKeys : (d new : Dict K V) → NodupKeys d → NodupKeys (update d new)
  unfolding update
  update-NodupKeys d [] u = u
  update-NodupKeys d ((k, v) ∷ new) u =
      update-NodupKeys (insert k v d) new (insert-NodupKeys k v d u)

  -- a write to a key that the update names is lost in it
  pub update-insert_of_present :
      (k : K) (v : V) (d new : Dict K V)
      → lookup k d ≢ none
      → lookup k new ≢ none
      → update (insert k v d) new ≡ update d new
  unfolding update lookup
  update-insert_of_present k v d [] h n = absurd (n refl)
  update-insert_of_present k v d ((j, w) ∷ new) h n = ground (
    arith,
    insert-insert k v w d,
    insert_comm j k v w d,
    update-insert_of_present k v (insert j w d) new (lookup-insert_keeps k j w d h),
  )

  -- and a write to any other key can be made after it
  pub update-insert_of_absent :
      (k : K) (v : V) (d new : Dict K V)
      → lookup k d ≢ none
      → lookup k new ≡ none
      → update (insert k v d) new ≡ insert k v (update d new)
  unfolding update lookup
  update-insert_of_absent k v d [] h n = refl
  update-insert_of_absent k v d ((j, w) ∷ new) h n = ground (
    arith,
    insert_comm j k v w d,
    update-insert_of_absent k v (insert j w d) new (lookup-insert_keeps k j w d h),
  )

  -- An update that is made twice is the update made once, order included.
  pub update-update : (d new : Dict K V) → update (update d new) new ≡ update d new
  unfolding update
  update-update d [] = refl
  update-update d ((k, v) ∷ new) = elim (Option-cases (lookup k new)) [
    | inl fresh ↦
        update-insert_of_absent k v (update (insert k v d) new) new
          (lookup-update_keeps k (insert k v d) new (lookup-insert_present k v d)) fresh
        ∙ ap (insert k v) (update-update (insert k v d) new)
        ∙ insert_same k v (update (insert k v d) new)
            (lookup-update_of_absent k (insert k v d) new fresh ∙ lookup-insert_self k v d)
    | inr (w, found) ↦
        update-insert_of_present k v (update (insert k v d) new) new
          (lookup-update_keeps k (insert k v d) new (lookup-insert_present k v d)) (λ n. cc)
        ∙ update-update (insert k v d) new
  ]

module _ {ℓ κ μ} {K : Type ℓ} {V : Type κ} ⦃e : Eq K⦄ (Q : K → V → Type μ) where
  -- what holds of every entry holds of every entry after a write of which it holds
  pub insert-entries :
      (k : K) (w : V) (d : Dict K V)
      → ((j : K) (v : V) → lookup j d ≡ some v → Q j v)
      → Q k w
      → (j : K) (v : V) → lookup j (insert k w d) ≡ some v
      → Q j v
  insert-entries k w d all new j v found = elim (e.dec j k) [
    | yes p ↦
        subst₂ Q (sym p)
          (some-injective w v
            (sym (ap (λ (i : K). lookup i (insert k w d)) p ∙ lookup-insert_self k w d) ∙ found))
          new
    | no n ↦ all j v (sym (lookup-insert_ne j k w d n) ∙ found)
  ]

module _ {ℓ κ} {K : Type ℓ} {V : Type κ} ⦃e : Eq K⦄ where
  abbrev pub IsKey : Dict K V → K → Type κ
  IsKey d k = (v : V) × (lookup k d ≡ some v)

  IsKey-cons : (j : K) (w : V) (d : Dict K V) (k : K) → IsKey d k → IsKey ((j, w) ∷ d) k
  unfolding lookup
  IsKey-cons j w d k (v, there) = elim (Bool-cases (k == j)) [
    | inl same ↦ (w, rw same refl)
    | inr other ↦ (v, rw other there)
  ]

  IsKey-first : (j : K) (w : V) (d : Dict K V) → IsKey ((j, w) ∷ d) j
  unfolding lookup
  IsKey-first j w d = (w, ground arith)

  -- a dict has a value at each of its keys
  pub keys_are : (d : Dict K V) → All (IsKey d) (keys d)
  unfolding keys
  keys_are [] = tt
  keys_are ((j, w) ∷ d) = (IsKey-first j w d, All-map (keys d) (IsKey-cons j w d) (keys_are d))
