-- ===== src/Base/Replay.antt =====
-- Sequences of writes that are made twice.
-- A write is there in a state once it has been made, whatever was written after it. Where it is there
-- already, a later write either covers it, so that making it again is of no effect, or commutes with it.
use mathlib.Core.Path.{◌≡◌, refl, sym, ap, ◌∙◌}
use mathlib.Core.Logic.{◌⊎◌, inl, inr}
use mathlib.Core.List.{List, [], ◌∷◌, ◌++◌}
use margin_mvp.Base.Lists.{All}

module _ {ℓ κ} {S : Type ℓ} {W : Type κ} (write : W → S → S) where
  abbrev pub write_all : List W → S → S
  write_all [] s = s
  write_all (w ∷ ws) s = write_all ws (write w s)

  pub write_all-append :
      (ws vs : List W) (s : S) → write_all (ws ++ vs) s ≡ write_all vs (write_all ws s)
  write_all-append [] vs s = refl
  write_all-append (w ∷ ws) vs s = write_all-append ws vs (write w s)

  module _ {μ ν} (IsThere : W → S → Type μ) (Fits : W → Type ν) where
    abbrev pub Covers : W → W → Type (ℓ ⊔ μ)
    Covers v w = (s : S) → IsThere w s → write v (write w s) ≡ write v s

    abbrev pub Commutes : W → W → Type (ℓ ⊔ μ)
    Commutes v w = (s : S) → IsThere w s → write v (write w s) ≡ write w (write v s)

    module _ (own : (w : W) (s : S) → IsThere w (write w s))
        (kept : (w v : W) (s : S) → Fits v → IsThere w s → IsThere w (write v s))
        (again : (w : W) (s : S) → write w (write w s) ≡ write w s)
        (meet : (v w : W) → Fits v → Fits w → Covers v w ⊎ Commutes v w) where
      stays : (w : W) (ws : List W) (s : S) → All Fits ws → IsThere w s → IsThere w (write_all ws s)
      stays w [] s fits h = h
      stays w (v ∷ ws) s (fit, fits) h = stays w ws (write v s) fits (kept w v s fit h)

      -- a write, moved over all the writes after it
      abbrev Lost : W → List W → Type (ℓ ⊔ μ)
      Lost w ws = (s : S) → IsThere w s → write_all ws (write w s) ≡ write_all ws s

      abbrev Moves : W → List W → Type (ℓ ⊔ μ)
      Moves w ws = (s : S) → IsThere w s → write_all ws (write w s) ≡ write w (write_all ws s)

      passes : (w : W) (ws : List W) → Fits w → All Fits ws → Lost w ws ⊎ Moves w ws
      passes w [] fit fits = inr (λ s h. refl)
      passes w (v ∷ ws) fit (fit', fits) = elim (meet v w fit' fit) [
        | inl covers ↦ inl (λ s h. ap (write_all ws) (covers s h))
        | inr commutes ↦ elim (passes w ws fit fits) [
          | inl lost ↦
              inl (λ s h. ap (write_all ws) (commutes s h) ∙ lost (write v s) (kept w v s fit' h))
          | inr moves ↦
              inr (λ s h. ap (write_all ws) (commutes s h) ∙ moves (write v s) (kept w v s fit' h))
        ]
      ]

      -- the first write of a sequence is lost in the second run of it
      absorbed :
          (w : W) (ws : List W) (s : S)
          → Fits w
          → All Fits ws
          → let u : S = write_all ws (write w s) in write_all ws (write w u) ≡ write_all ws u
      absorbed w ws s fit fits =
          let u : S = write_all ws (write w s) in
          elim (passes w ws fit fits) [
            | inl lost ↦ lost u (stays w ws (write w s) fits (own w s))
            | inr moves ↦
                let same : u ≡ write w u =
                  ap (write_all ws) (sym (again w s)) ∙ moves (write w s) (own w s) in
                ap (write_all ws) (sym same)
          ]

      pub write_all_twice :
          (ws : List W) (s : S) → All Fits ws → write_all ws (write_all ws s) ≡ write_all ws s
      write_all_twice [] s fits = refl
      write_all_twice (w ∷ ws) s (fit, fits) =
          absorbed w ws s fit fits ∙ write_all_twice ws (write w s) fits
