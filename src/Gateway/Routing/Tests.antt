-- ===== src/Gateway/Routing/Tests.antt =====
-- Concrete routes: two providers expose one model, and the first of them is off.
use mnemostroma.Prelude.{String, ◌≡◌, refl, true, false, none, some, [], ◌∷◌, ◌⊎◌}
use mnemostroma.Prelude.Dict.{Dict, get, put}
use mnemostroma.Gateway.Routing.{GatewayProfile, ModelRoute, model_router, resolve}
use mnemostroma.Gateway.Routing.First.{IsNone, IsFirst, resolve-IsFirst}

abbrev providers : Dict String GatewayProfile
providers =
    ("old", record { protocol = "openai"; exposed_models = "big" ∷ []; enabled = false })
    ∷ (
      "new",
      record { protocol = "gemini"; exposed_models = "new/small" ∷ "big" ∷ []; enabled = true },
    )
    ∷ ("other", record { protocol = "openai"; exposed_models = "big" ∷ []; enabled = true })
    ∷ []

prefix_taken_off :
    resolve (model_router providers) "new/small"
    ≡ some (record { provider_id = "new"; upstream_model = "small"; protocol = "gemini" })
unfolding resolve model_router get put
prefix_taken_off = refl

first_enabled :
    resolve (model_router providers) "big"
    ≡ some (record { provider_id = "new"; upstream_model = "big"; protocol = "gemini" })
unfolding resolve model_router get put
first_enabled = refl

resolve-IsFirst_example :
    ((resolve (model_router providers) "big" ≡ none) × IsNone providers "big")
    ⊎ ((r : ModelRoute) × (resolve (model_router providers) "big" ≡ some r)
        × IsFirst providers "big" r)
resolve-IsFirst_example = resolve-IsFirst providers "big"
