-- ===== src/Subconscious/Surfacing/Served.antt =====
-- What is lost to the loop over ids and to the cut has something as good in its place.
use mathlib.Core.Path.{subst}
use mnemostroma.Prelude.{
  ℕ, zero, suc, ◌≤◌, ◌≡◌, refl, sym, String, true, List, [], ◌∷◌, arith, ==_iff, string_eq,
  contains, take, length, All, Bool-cases, inl, inr, ◌⊎◌,
}
use mnemostroma.Prelude.SortDown.{Any, IsSortedDown}
use mnemostroma.Subconscious.Surfacing.{Surfaced, key_of, dedupe}
use mnemostroma.Subconscious.Surfacing.Best.{dedupe_dropped, dedupe_kept}

module _ {V : Type 0} where
  -- An item with an id, and at least as good as a key.
  abbrev pub AsGood : String → ℕ → Surfaced V → Type 0
  AsGood id key r = (r.source.id ≡ id) × (key ≤ key_of r)

  -- An item whose id was not seen has one with its id that is as good.
  abbrev pub IsServed : List String → List (Surfaced V) → Surfaced V → Type 0
  IsServed seen ds m = (contains m.source.id seen ≡ true) ⊎ Any (AsGood m.source.id (key_of m)) ds

  now_seen :
      (x m : Surfaced V) (seen : List String)
      → key_of m ≤ key_of x
      → contains m.source.id (x.source.id ∷ seen) ≡ true
      → (x.source.id ≡ m.source.id) ⊎ (contains m.source.id seen ≡ true)
  now_seen x m seen l h =
      ground (arith, h, ==_iff x.source.id m.source.id, ==_iff m.source.id x.source.id)

  serve :
      (x m : Surfaced V) (seen : List String) (ds : List (Surfaced V))
      → key_of m ≤ key_of x
      → IsServed (x.source.id ∷ seen) ds m
      → IsServed seen (x ∷ ds) m
  serve x m seen ds l (inr a) = inr (inr a)
  serve x m seen ds l (inl h) = elim (now_seen x m seen l h) [
    | inl e ↦ inr (inl (e, l))
    | inr s ↦ inl s
  ]

  serve_all :
      (x : Surfaced V) (seen : List String) (ds rs : List (Surfaced V))
      → All (λ m. key_of m ≤ key_of x) rs
      → All (IsServed (x.source.id ∷ seen) ds) rs
      → All (IsServed seen (x ∷ ds)) rs
  serve_all x seen ds [] l h = tt
  serve_all x seen ds (m ∷ rs) l h = (serve x m seen ds l.0 h.0, serve_all x seen ds rs l.1 h.1)

  pub dedupe-IsServed :
      (seen : List String) (rs : List (Surfaced V))
      → IsSortedDown key_of rs
      → All (IsServed seen (dedupe seen rs)) rs
  dedupe-IsServed seen [] h = tt
  dedupe-IsServed seen (x ∷ rs) h = elim (Bool-cases (contains x.source.id seen)) [
    | inl e ↦
        subst (λ ds. All (IsServed seen ds) (x ∷ rs)) (sym (dedupe_dropped seen x rs e))
          (inl e, dedupe-IsServed seen rs h.1)
    | inr e ↦
        subst (λ ds. All (IsServed seen ds) (x ∷ rs)) (sym (dedupe_kept seen x rs e))
          (
            inr (inl (refl, omega arith)),
            serve_all x seen (dedupe (x.source.id ∷ seen) rs) rs h.0
                (dedupe-IsServed (x.source.id ∷ seen) rs h.1),
          )
  ]

  AsGood-below :
      (id : String) (key bound : ℕ) (ds : List (Surfaced V))
      → All (λ s. key_of s ≤ bound) ds
      → Any (AsGood id key) ds
      → key ≤ bound
  AsGood-below id key bound [] h a = elim a [ ]
  AsGood-below id key bound (d ∷ ds) h (inl a) = omega (arith, h.0, a.1)
  AsGood-below id key bound (d ∷ ds) h (inr a) = AsGood-below id key bound ds h.1 a

  -- A cut of a sorted list keeps an item, or is full of items that are as good.
  pub kept_or_full :
      (id : String) (key n : ℕ) (ds : List (Surfaced V))
      → IsSortedDown key_of ds
      → Any (AsGood id key) ds
      → Any (AsGood id key) (take n ds)
        ⊎ ((length (take n ds) ≡ n) × All (λ (r : Surfaced V). key ≤ key_of r) (take n ds))
  kept_or_full id key zero ds h a = inr (refl, tt)
  kept_or_full id key (suc n) [] h a = elim a [ ]
  kept_or_full id key (suc n) (d ∷ ds) h (inl a) = inl (inl a)
  kept_or_full id key (suc n) (d ∷ ds) h (inr a) = elim (kept_or_full id key n ds h.1 a) [
    | inl k ↦ inl (inr k)
    | inr f ↦ inr (omega (arith, f.0), (AsGood-below id key (key_of d) ds h.0 a, f.1))
  ]
