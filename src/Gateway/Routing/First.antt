-- ===== src/Gateway/Routing/First.antt =====
-- The index of the router gives a model to the first enabled provider that exposes it.
use Prim.Native.String.{◌++◌}
use Prim.Native.String.append
use Prim.Native.Char.{code}
use text.Mathlib.TextEquality.{Char-path}
use mathlib.Core.Path.{subst}
use mnemostroma.Prelude.{
  String, ◌≡◌, refl, ◌∙◌, sym, ap, Bool, true, false, ◌&&◌, Option, none, some, is_some, List, [],
  ◌∷◌, arith, ◌=ℕ◌, =ℕ_iff, string_eq, ==_iff, if◌then◌else◌, contains, Bool-cases, Option-cases,
  inl, inr, ◌⊎◌,
}
use mnemostroma.Prelude.Dict.{Dict, get, put, get-put}
use mnemostroma.Gateway.Routing.{
  GatewayProfile, ModelRoute, without_prefix, upstream_of, route_to, add_models, add_providers,
  model_router, resolve,
}

without_prefix-some : (p s t : String) → without_prefix p s ≡ some t → s ≡ (p ++ t)
unfolding without_prefix
without_prefix-some String.[] s t h = ground (arith, append.nil t)
without_prefix-some (String.◌∷◌ c p) String.[] t h = cc
without_prefix-some (String.◌∷◌ c p) (String.◌∷◌ d s) t h = elim (Bool-cases (code c =ℕ code d)) [
  | inl same ↦
      let e : c ≡ d = Char-path c d ((=ℕ_iff (code c) (code d)).0 same) in
      let r : s ≡ (p ++ t) = without_prefix-some p s t (ground arith) in
      ap (λ x. String.◌∷◌ x s) (sym e) ∙ ap (String.◌∷◌ c) r ∙ sym (append.cons c p t)
  | inr other ↦ absurd (ground arith)
]

without_prefix-append : (p t : String) → without_prefix p (p ++ t) ≡ some t
unfolding without_prefix
without_prefix-append String.[] t = ap some (append.nil t)
without_prefix-append (String.◌∷◌ c p) t =
    subst (λ s. without_prefix (String.◌∷◌ c p) s ≡ some t) (sym (append.cons c p t))
      (ground (arith, without_prefix-append p t, (=ℕ_iff (code c) (code c)).1 refl))

-- The name of the model at the provider: without the provider's prefix, if it has that.
abbrev pub IsUpstream : String → String → String → Type 0
IsUpstream provider_id model_id upstream =
    (model_id ≡ (provider_id ++ "/") ++ upstream)
    ⊎ ((upstream ≡ model_id) × ((rest : String) → ¬ (model_id ≡ (provider_id ++ "/") ++ rest)))

upstream_of-IsUpstream : (i m : String) → IsUpstream i m (upstream_of i m)
unfolding upstream_of
upstream_of-IsUpstream i m = elim (Option-cases (without_prefix (i ++ "/") m)) [
  | inl other ↦ inr (
    rw (other, upstream_of) refl,
    λ rest e. absurd (
        let found : without_prefix (i ++ "/") m ≡ some rest =
          ap (without_prefix (i ++ "/")) e ∙ without_prefix-append (i ++ "/") rest in
        cc),
  )
  | inr (rest, prefixed) ↦
      inl (rw (prefixed, upstream_of) (without_prefix-some (i ++ "/") m rest prefixed))
]

abbrev pub serves : String → GatewayProfile → Bool
serves m p = p.enabled && contains m p.exposed_models

abbrev pub IsNone : Dict String GatewayProfile → String → Type 0
IsNone [] m = Unit
IsNone ((i, p) ∷ ps) m = (serves m p ≡ false) × IsNone ps m

-- The route to the first provider that serves the model.
abbrev pub IsFirst : Dict String GatewayProfile → String → ModelRoute → Type 0
IsFirst [] m r = ⊥
IsFirst ((i, p) ∷ ps) m r =
    ((serves m p ≡ true)
      × (r.provider_id ≡ i)
      × (r.protocol ≡ p.protocol)
      × IsUpstream i m r.upstream_model)
    ⊎ ((serves m p ≡ false) × IsFirst ps m r)

-- The first route that the providers give, as a search for one model.
abbrev first_route : Dict String GatewayProfile → String → Option ModelRoute
first_route [] m = none
first_route ((i, p) ∷ ps) m = if serves m p then some (route_to i p m) else first_route ps m

abbrev or_else : Option ModelRoute → Option ModelRoute → Option ModelRoute
or_else none o = o
or_else (some r) o = some r

get-add_models :
    (i : String) (p : GatewayProfile) (ms : List String) (index : Dict String ModelRoute)
    (m : String)
    → get (add_models i p ms index) m
      ≡ or_else (get index m) (if contains m ms then some (route_to i p m) else none)
unfolding add_models
get-add_models i p [] index m = ground arith
get-add_models i p (n ∷ ms) index m = elim (Bool-cases (is_some (get index n))) [
  | inl there ↦ ground (arith, get-add_models i p ms index m, ==_iff m n)
  | inr new ↦ ground (
    arith,
    get-add_models i p ms (put index n (route_to i p n)) m,
    get-put index n m (route_to i p n),
    ==_iff m n,
    ==_iff n m,
  )
]

get-add_providers :
    (ps : Dict String GatewayProfile) (index : Dict String ModelRoute) (m : String)
    → get (add_providers ps index) m ≡ or_else (get index m) (first_route ps m)
unfolding add_providers
get-add_providers [] index m = ground arith
get-add_providers ((i, p) ∷ ps) index m = ground (
  arith,
  get-add_providers ps index m,
  get-add_providers ps (add_models i p p.exposed_models index) m,
  get-add_models i p p.exposed_models index m,
)

first_route_lem :
    (ps : Dict String GatewayProfile) (m : String)
    → ((first_route ps m ≡ none) × IsNone ps m)
      ⊎ ((r : ModelRoute) × (first_route ps m ≡ some r) × IsFirst ps m r)
unfolding route_to
first_route_lem [] m = inl (refl, tt)
first_route_lem ((i, p) ∷ ps) m = elim (Bool-cases (serves m p)) [
  | inl yes' ↦
      inr (route_to i p m, rw yes' refl, inl (yes', refl, refl, upstream_of-IsUpstream i m))
  | inr no' ↦ elim (first_route_lem ps m) [
    | inl (e, h) ↦ inl (rw no' e, (no', h))
    | inr (r, e, h) ↦ inr (r, rw no' e, inr (no', h))
  ]
]

-- A model resolves exactly if some enabled provider exposes it, and then to the first such provider
-- in the order of the configuration, with its protocol, and under the name that is left when the
-- provider's id and a slash are taken off the front, or under its own name without that prefix.
pub resolve-IsFirst :
    (ps : Dict String GatewayProfile) (m : String)
    → ((resolve (model_router ps) m ≡ none) × IsNone ps m)
      ⊎ ((r : ModelRoute) × (resolve (model_router ps) m ≡ some r) × IsFirst ps m r)
unfolding resolve model_router get
resolve-IsFirst ps m =
    subst (λ o. ((o ≡ none) × IsNone ps m) ⊎ ((r : ModelRoute) × (o ≡ some r) × IsFirst ps m r))
      (sym (get-add_providers ps [] m)) (first_route_lem ps m)
