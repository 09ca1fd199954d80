-- ===== src/Ingestion/Pipeline/Recorded.antt =====
-- ingestion/pipeline.py: the steps of `load_bundle` as sequences of the client's calls.
use margin_mvp.Base.{String, ◌≡◌, refl, ap, sym, ◌∙◌, List, [], ◌∷◌, ◌++◌, string_eq}
use margin_mvp.Base.Lists.{All}
use margin_mvp.Base.Exec.{Exec, ok, pure, for_each, ◌>>=◌}
use margin_mvp.Base.Returns.{Returns}
use margin_mvp.Value.{Props}
use margin_mvp.Graph.Client.{Client}
use margin_mvp.Graph.Client.Calls.{Call, run, run_all}
use margin_mvp.Graph.Client.Twice.{run_all-append}
use margin_mvp.Ingestion.Pipeline.Ready.{Ready}

-- the calls of a loop
abbrev pub calls_of {ℓ} : {A : Type ℓ} → (A → List Call) → List A → List Call
calls_of f [] = []
calls_of f (x ∷ xs) = f x ++ calls_of f xs

module _ (subtypes types : List String) (ms : List Props) where
  abbrev R : Client → Type 0
  R = Ready subtypes types ms

  module _ {S : Type 0} (client : S → Client) where
    -- on a ready client the method returns, and leaves what the calls leave
    abbrev pub Does {ℓ} : {A : Type ℓ} → List Call → Exec S A → Type ℓ
    Does {A = A} calls m =
        (s : S)
        → R (client s)
        → (a : A) × ((m s).0 ≡ ok a)
          × (client (m s).1 ≡ run_all calls (client s))
          × R (client (m s).1)

    pub bind-Does :
        {A B : Type 0} (xs ys : List Call) (first : Exec S A) (next : A → Exec S B)
        → Does xs first
        → ((a : A) → Does ys (next a))
        → Does (xs ++ ys) (first >>= next)
    unfolding ◌>>=◌
    bind-Does xs ys first next one other s h =
        let (a, done, left, ready) = one s h in
        let (b, ended, last, ready') = other a (first s).1 ready in
        rw done
          (b, ended, last ∙ ap (run_all ys) left ∙ sym (run_all-append xs ys (client s)), ready')

    -- where what the first step returns is known, and it makes no call
    pub bind-Does_at :
        {A B : Type 0} (ys : List Call) (first : Exec S A) (next : A → Exec S B) (s : S) (a : A)
        → (first s).0 ≡ ok a
        → client (first s).1 ≡ client s
        → R (client (first s).1)
        → Does ys (next a)
        → (b : B) × (((first >>= next) s).0 ≡ ok b)
          × (client ((first >>= next) s).1 ≡ run_all ys (client s))
          × R (client ((first >>= next) s).1)
    unfolding ◌>>=◌
    bind-Does_at ys first next s a done left ready other =
        let (b, ended, last, ready') = other (first s).1 ready in
        rw done (b, ended, last ∙ ap (run_all ys) left, ready')

    pub pure-Does :
        {A B : Type 0} (xs : List Call) (first : Exec S A) (f : A → B)
        → Does xs first
        → Does xs (first >>= λ a. pure (f a))
    unfolding ◌>>=◌ pure
    pure-Does xs first f one s h =
        let (a, done, left, ready) = one s h in rw done (f a, refl, left, ready)

    pub for_each-Does :
        {A : Type 0} (f : A → List Call) (body : A → Exec S (Unit {0})) (xs : List A)
        → All (λ x. Does (f x) (body x)) xs
        → Does (calls_of f xs) (for_each xs body)
    unfolding for_each run_all
    for_each-Does f body [] k s h = (tt, refl, refl, h)
    for_each-Does f body (x ∷ xs) (k, ks) s h =
        let (a, done, left, ready) = k s h in
        let (b, ended, last, ready') = for_each-Does f body xs ks (body x s).1 ready in
        rw done (
          b,
          ended,
          last
              ∙ ap (run_all (calls_of f xs)) left
              ∙ sym (run_all-append (f x) (calls_of f xs) (client s)),
          ready',
        )

  -- one call
  pub call-Does : (call : Call) → Returns R (run call) → Does (λ c. c) (call ∷ []) (run call)
  unfolding run_all
  call-Does call returns c h = let (a, done, ready) = returns c h in (a, done, refl, ready)
