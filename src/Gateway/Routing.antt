-- ===== src/Gateway/Routing.antt =====
-- gateway/routing.py: the provider that serves a model. ModelRouter builds its index once from the
-- configured providers, in their order.
pub mod First
mod Tests
use Prim.Native.String.{◌++◌}
use Prim.Native.Char.{code}
use mnemostroma.Prelude.{
  String, Bool, true, false, Option, none, some, is_some, List, [], ◌∷◌, ◌=ℕ◌, string_eq,
  if◌then◌else◌,
}
use mnemostroma.Prelude.Dict.{Dict, get, put}

-- What the router reads of a `GatewayProfile`.
pub record GatewayProfile : Type 0 where
  pub protocol : String
  pub exposed_models : List String
  pub enabled : Bool

pub record ModelRoute : Type 0 where
  pub provider_id : String
  pub upstream_model : String
  pub protocol : String

-- `s[len(prefix):]`, if `s.startswith(prefix)`
pub without_prefix : String → String → Option String
without_prefix String.[] s = some s
without_prefix (String.◌∷◌ c p) String.[] = none
without_prefix (String.◌∷◌ c p) (String.◌∷◌ d s) =
    let rest = without_prefix p s in if code c =ℕ code d then rest else none

pub upstream_of : String → String → String
unfolding without_prefix
upstream_of provider_id model_id = elim (without_prefix (provider_id ++ "/") model_id) [
  | none ↦ model_id
  | some rest ↦ rest
]

pub route_to : String → GatewayProfile → String → ModelRoute
unfolding upstream_of
route_to provider_id profile model_id = record {
  provider_id = provider_id;
  upstream_model = upstream_of provider_id model_id;
  protocol = profile.protocol;
}

-- The inner loop: a model that has a route keeps it.
pub add_models :
    String → GatewayProfile → List String → Dict String ModelRoute → Dict String ModelRoute
unfolding route_to
add_models provider_id profile [] index = index
add_models provider_id profile (m ∷ ms) index =
    add_models provider_id profile ms
      (if is_some (get index m) then index else put index m (route_to provider_id profile m))

-- The outer loop: a provider that is not enabled is passed over.
pub add_providers : Dict String GatewayProfile → Dict String ModelRoute → Dict String ModelRoute
unfolding add_models
add_providers [] index = index
add_providers ((provider_id, profile) ∷ ps) index =
    add_providers ps (
      if profile.enabled
      then add_models provider_id profile profile.exposed_models index
      else index)

pub model_router : Dict String GatewayProfile → Dict String ModelRoute
unfolding add_providers
model_router providers = add_providers providers []

-- `ModelRouter.resolve`; `none` is the ModelNotFoundError.
pub resolve : Dict String ModelRoute → String → Option ModelRoute
resolve index requested_model = get index requested_model
