-- ===== src/Subconscious/Surfacing/Best.antt =====
-- What the loop that keeps the first item of each id does, and a cut.
use mathlib.Core.Path.{subst}
use mnemostroma.Prelude.{
  ℕ, zero, suc, ◌≤◌, ◌≡◌, ◌≢◌, ◌∙◌, sym, ap, String, Bool, true, false, List, [], ◌∷◌, arith,
  ==_refl, string_eq, contains, take, All, All-take, Bool-cases, true≢false, inl, inr,
}
use mnemostroma.Prelude.Sort.{All-map}
use mnemostroma.Prelude.SortDown.{IsSortedDown, Pairwise}
use mnemostroma.Subconscious.Surfacing.{Surfaced, key_of, dedupe}

module _ {V : Type 0} where
  pub dedupe_dropped :
      (seen : List String) (r : Surfaced V) (rs : List (Surfaced V))
      → contains r.source.id seen ≡ true
      → dedupe seen (r ∷ rs) ≡ dedupe seen rs
  unfolding dedupe
  dedupe_dropped seen r rs e =
      ap
        (λ (b : Bool). elim b as (λ x. List (Surfaced V)) [
          | true ↦ dedupe seen rs
          | false ↦ r ∷ dedupe (r.source.id ∷ seen) rs
        ])
        e

  pub dedupe_kept :
      (seen : List String) (r : Surfaced V) (rs : List (Surfaced V))
      → contains r.source.id seen ≡ false
      → dedupe seen (r ∷ rs) ≡ r ∷ dedupe (r.source.id ∷ seen) rs
  unfolding dedupe
  dedupe_kept seen r rs e =
      ap
        (λ (b : Bool). elim b as (λ x. List (Surfaced V)) [
          | true ↦ dedupe seen rs
          | false ↦ r ∷ dedupe (r.source.id ∷ seen) rs
        ])
        e

  dedupe-unseen :
      (seen : List String) (rs : List (Surfaced V))
      → All (λ (r : Surfaced V). contains r.source.id seen ≡ false) (dedupe seen rs)
  unfolding dedupe
  dedupe-unseen seen [] = tt
  dedupe-unseen seen (r ∷ rs) = elim (Bool-cases (contains r.source.id seen)) [
    | inl e ↦
        subst (All (λ (r : Surfaced V). contains r.source.id seen ≡ false))
          (sym (dedupe_dropped seen r rs e)) (dedupe-unseen seen rs)
    | inr e ↦
        subst (All (λ (r : Surfaced V). contains r.source.id seen ≡ false))
          (sym (dedupe_kept seen r rs e))
          (
            e,
            All-map (dedupe (r.source.id ∷ seen) rs) (λ s h. ground (arith, h))
                (dedupe-unseen (r.source.id ∷ seen) rs),
          )
  ]

  -- No two items have one id.
  abbrev pub IsApart : Surfaced V → Surfaced V → Type 0
  IsApart r s = r.source.id ≢ s.source.id

  seen_differs :
      (r s : Surfaced V) (seen : List String)
      → contains s.source.id (r.source.id ∷ seen) ≡ false
      → IsApart r s
  seen_differs r s seen h e = true≢false (
      sym (ap (λ i. contains i (r.source.id ∷ seen)) (sym e) ∙ ground (arith, ==_refl r.source.id))
      ∙ h)

  pub dedupe-IsApart :
      (seen : List String) (rs : List (Surfaced V)) → Pairwise IsApart (dedupe seen rs)
  unfolding dedupe
  dedupe-IsApart seen [] = tt
  dedupe-IsApart seen (r ∷ rs) = elim (Bool-cases (contains r.source.id seen)) [
    | inl e ↦ subst (Pairwise IsApart) (sym (dedupe_dropped seen r rs e)) (dedupe-IsApart seen rs)
    | inr e ↦ subst (Pairwise IsApart) (sym (dedupe_kept seen r rs e)) (
      All-map (dedupe (r.source.id ∷ seen) rs) (λ s h. seen_differs r s seen h)
          (dedupe-unseen (r.source.id ∷ seen) rs),
      dedupe-IsApart (r.source.id ∷ seen) rs,
    )
  ]

  pub All-dedupe :
      (P : Surfaced V → Type 0) (seen : List String) (rs : List (Surfaced V))
      → All P rs
      → All P (dedupe seen rs)
  unfolding dedupe
  All-dedupe P seen [] h = tt
  All-dedupe P seen (r ∷ rs) h = elim (Bool-cases (contains r.source.id seen)) [
    | inl e ↦ subst (All P) (sym (dedupe_dropped seen r rs e)) (All-dedupe P seen rs h.1)
    | inr e ↦
        subst (All P) (sym (dedupe_kept seen r rs e))
          (h.0, All-dedupe P (r.source.id ∷ seen) rs h.1)
  ]

  pub dedupe-IsSortedDown :
      (seen : List String) (rs : List (Surfaced V))
      → IsSortedDown key_of rs
      → IsSortedDown key_of (dedupe seen rs)
  unfolding dedupe
  dedupe-IsSortedDown seen [] h = tt
  dedupe-IsSortedDown seen (r ∷ rs) h = elim (Bool-cases (contains r.source.id seen)) [
    | inl e ↦
        subst (IsSortedDown key_of) (sym (dedupe_dropped seen r rs e))
          (dedupe-IsSortedDown seen rs h.1)
    | inr e ↦ subst (IsSortedDown key_of) (sym (dedupe_kept seen r rs e)) (
      All-dedupe (λ s. key_of s ≤ key_of r) (r.source.id ∷ seen) rs h.0,
      dedupe-IsSortedDown (r.source.id ∷ seen) rs h.1,
    )
  ]

  pub take-IsSortedDown :
      (n : ℕ) (rs : List (Surfaced V)) → IsSortedDown key_of rs → IsSortedDown key_of (take n rs)
  take-IsSortedDown zero rs h = tt
  take-IsSortedDown (suc n) [] h = tt
  take-IsSortedDown (suc n) (r ∷ rs) h =
      (All-take (λ s. key_of s ≤ key_of r) n rs h.0, take-IsSortedDown n rs h.1)

  pub take-IsApart :
      (n : ℕ) (rs : List (Surfaced V)) → Pairwise IsApart rs → Pairwise IsApart (take n rs)
  take-IsApart zero rs h = tt
  take-IsApart (suc n) [] h = tt
  take-IsApart (suc n) (r ∷ rs) h = (All-take (IsApart r) n rs h.0, take-IsApart n rs h.1)
