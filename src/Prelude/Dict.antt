-- ===== src/Prelude/Dict.antt =====
-- Python's `dict` in insertion order: an assignment to a present key keeps its place, and a new
-- key goes to the end. The laws are in `if` form, so they have no side condition.
use Prim.Native.Nat.{◌+◌, ◌≤◌}
use mathlib.Core.Path.{◌≡◌, refl}
use mathlib.Core.List.{List, [], ◌∷◌}
use mathlib.Core.Option.{Option, none, some}
use native.Mathlib.Omega.{arith}
use mnemostroma.Prelude.Tests.{if◌then◌else◌, is_some}
use mnemostroma.Prelude.Equality.{Eq, ◌==◌, ==_iff}
use mnemostroma.Prelude.Lists.{length}

abbrev pub Dict {ℓ κ} : Type ℓ → Type κ → Type (ℓ ⊔ κ)
Dict K V = List (K × V)

module _ {ℓ κ} {K : Type ℓ} ⦃e : Eq K⦄ {V : Type κ} where
  -- `d.get(k)`
  unfoldable pub get : Dict K V → K → Option V
  get [] k = none
  get ((j, v) ∷ d) k = if j == k then some v else get d k

  -- `d[k] = v`
  unfoldable pub put : Dict K V → K → V → Dict K V
  put [] k v = (k, v) ∷ []
  put ((j, w) ∷ d) k v = if j == k then (j, v) ∷ d else (j, w) ∷ put d k v

  -- `d.pop(k, None)`, for what stays
  unfoldable pub remove : Dict K V → K → Dict K V
  remove [] k = []
  remove ((j, w) ∷ d) k = let rest = remove d k in if j == k then rest else (j, w) ∷ rest

  pub get-put :
      (d : Dict K V) (k j : K) (v : V) → get (put d k v) j ≡ (if k == j then some v else get d j)
  unfolding get put
  get-put [] k j v = refl
  get-put ((i, w) ∷ d) k j v = ground (arith, get-put d k j v, ==_iff k j, ==_iff i k, ==_iff i j)

  pub get-remove :
      (d : Dict K V) (k j : K) → get (remove d k) j ≡ (if k == j then none else get d j)
  unfolding get remove
  get-remove [] k j = ground arith
  get-remove ((i, w) ∷ d) k j = ground (arith, get-remove d k j, ==_iff k j, ==_iff i k, ==_iff i j)

  -- A new key makes the dictionary one longer, a present one does not.
  pub length-put :
      (d : Dict K V) (k : K) (v : V)
      → length (put d k v) ≡ (if is_some (get d k) then length d else length d + 1)
  unfolding get put
  length-put [] k v = omega arith
  length-put ((i, w) ∷ d) k v = ground (arith, length-put d k v)

  pub length-remove_le : (d : Dict K V) (k : K) → length (remove d k) ≤ length d
  unfolding remove
  length-remove_le [] k = omega arith
  length-remove_le ((i, w) ∷ d) k = ground (arith, length-remove_le d k)

  -- Removing a present key makes the dictionary shorter.
  pub length-remove_lt :
      (d : Dict K V) (k : K) (v : V) → get d k ≡ some v → length (remove d k) + 1 ≤ length d
  unfolding get remove
  length-remove_lt [] k v h = ground arith
  length-remove_lt ((i, w) ∷ d) k v h = ground (arith, length-remove_lt d k v, length-remove_le d k)

  -- `d.values()`
  abbrev pub values : Dict K V → List V
  values [] = []
  values ((k, v) ∷ d) = v ∷ values d

  abbrev pub keys : Dict K V → List K
  keys [] = []
  keys ((k, v) ∷ d) = k ∷ keys d

pub ruleset dict_laws = (get-put, get-remove)
