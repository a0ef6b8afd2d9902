-- ===== src/Prelude/Distinct.antt =====
-- Dictionaries in which no key stands twice, as Python's are.
use mathlib.Core.Path.{◌≡◌}
use mathlib.Core.Logic.{◌≢◌, inl, inr}
use mathlib.Core.List.{[], ◌∷◌}
use mathlib.Core.Option.{some}
use native.Mathlib.Omega.{arith}
use mnemostroma.Prelude.Tests.{Bool-cases}
use mnemostroma.Prelude.Equality.{Eq, ◌==◌, ==_iff}
use mnemostroma.Prelude.Lists.{All}
use mnemostroma.Prelude.Dict.{Dict, get, put, remove}
use mnemostroma.Prelude.Sort.{All-map}

module _ {ℓ κ} {K : Type ℓ} ⦃q : Eq K⦄ {V : Type κ} where
  abbrev pub IsDistinct : Dict K V → Type ℓ
  IsDistinct [] = Unit
  IsDistinct ((k, v) ∷ d) = All (λ e. e.0 ≢ k) d × IsDistinct d

  All-remove {ι} : (P : K × V → Type ι) (d : Dict K V) (k : K) → All P d → All P (remove d k)
  unfolding remove
  All-remove P [] k h = tt
  All-remove P ((j, v) ∷ d) k h = elim (Bool-cases (j == k)) [
    | inl e ↦ rw e (All-remove P d k h.1)
    | inr e ↦ rw e (h.0, All-remove P d k h.1)
  ]

  pub IsDistinct-remove : (d : Dict K V) (k : K) → IsDistinct d → IsDistinct (remove d k)
  unfolding remove
  IsDistinct-remove [] k h = tt
  IsDistinct-remove ((j, v) ∷ d) k h = elim (Bool-cases (j == k)) [
    | inl e ↦ rw e (IsDistinct-remove d k h.1)
    | inr e ↦ rw e (All-remove (λ e. e.0 ≢ j) d k h.0, IsDistinct-remove d k h.1)
  ]

  All-put :
      (j : K) (d : Dict K V) (k : K) (v : V)
      → k ≢ j
      → All (λ e. e.0 ≢ j) d
      → All (λ e. e.0 ≢ j) (put d k v)
  unfolding put
  All-put j [] k v n h = (n, tt)
  All-put j ((i, w) ∷ d) k v n h = elim (Bool-cases (i == k)) [
    | inl e ↦ rw e (h.0, h.1)
    | inr e ↦ rw e (h.0, All-put j d k v n h.1)
  ]

  pub IsDistinct-put : (d : Dict K V) (k : K) (v : V) → IsDistinct d → IsDistinct (put d k v)
  unfolding put
  IsDistinct-put [] k v h = (tt, tt)
  IsDistinct-put ((j, w) ∷ d) k v h = elim (Bool-cases (j == k)) [
    | inl e ↦ rw e (h.0, h.1)
    | inr e ↦
        rw e (All-put j d k v (λ s. ground (arith, ==_iff j k, s)) h.0, IsDistinct-put d k v h.1)
  ]

  module _ {ι μ} (P : K × V → Type ι) (Q : K × V → Type μ) where
    pub All-zip : (d : Dict K V) → All P d → All Q d → All (λ e. P e × Q e) d
    All-zip [] h k = tt
    All-zip (e ∷ d) h k = ((h.0, k.0), All-zip d h.1 k.1)

  -- Every entry is found under its key.
  pub entries_found : (d : Dict K V) → IsDistinct d → All (λ e. get d e.0 ≡ some e.1) d
  unfolding get
  entries_found [] h = tt
  entries_found ((k, v) ∷ d) h = (
    ground (arith, ==_iff k k),
    All-map d (λ e p. ground (arith, ==_iff k e.0, p))
        (All-zip (λ e. e.0 ≢ k) (λ e. get d e.0 ≡ some e.1) d h.0 (entries_found d h.1)),
  )
