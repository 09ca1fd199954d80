-- ===== src/Tests/Packs.antt =====
-- The packs' tests, and instances of their theorems.
use margin_mvp.Base.{◌≡◌, refl, ◌⊎◌, inl, inr, false, string_eq, List, ◌++◌, ◌∷◌}
use margin_mvp.Base.Lists.{In, All}
use margin_mvp.Base.Text.{split_once}
use margin_mvp.Base.Dict.{lookup}
use margin_mvp.Base.Exec.{ok, err, value_error}
use margin_mvp.Graph.Client.{init}
use margin_mvp.Graph.Client.Steps.{IsSound}
use margin_mvp.Graph.Client.Safety.{init-IsSound}
use margin_mvp.Packs.Loader.{MetricDef, validate, is_owned, load_pack}
use margin_mvp.Packs.Ownership.{IsOwned, validate_lem}
use margin_mvp.Packs.Loading.{load_pack_rejects, load_pack-IsSound}
use margin_mvp.Tests.Data.{widgets, mixed, foreign}

validate_lem_example :
    ((validate mixed ≡ ok tt) × All (IsOwned mixed) mixed.metrics)
    ⊎ ((before : List MetricDef) × (m : MetricDef) × (after : List MetricDef) × (mixed.metrics
          ≡ before ++ m ∷ after)
        × All (IsOwned mixed) before
        × ¬ IsOwned mixed m
        × (validate mixed ≡ err (value_error m.metric_key)))
validate_lem_example = validate_lem mixed

load_pack_rejects_example :
    (n : MetricDef) × In n mixed.metrics
    × (is_owned mixed n.metric_key ≡ false)
    × (load_pack mixed init ≡ (err (value_error n.metric_key), init))
unfolding is_owned string_eq split_once
load_pack_rejects_example = load_pack_rejects mixed init foreign (inr (inl refl)) refl

load_pack-IsSound_example : IsSound (load_pack widgets init).1
unfolding lookup string_eq
load_pack-IsSound_example = load_pack-IsSound widgets init (refl, tt) tt init-IsSound
