-- ===== src/Integration/Proxy/Dedupe.antt =====
-- What is left of the lines of a section when repetitions are dropped.
use mathlib.Core.Path.{subst}
use mnemostroma.Prelude.{
  ◌≡◌, refl, sym, ap, ◌⊎◌, inl, inr, Bool, true, false, ◌||◌, List, [], ◌∷◌, arith, any, All,
  Bool-cases,
}
use mnemostroma.Prelude.Sort.{All-map}
use mnemostroma.Prelude.SortDown.{Any, Pairwise}
use mnemostroma.Integration.Proxy.{
  Text, Texts, is_blank, same_text, is_repeated, dedupe_from, dedupe_briefs,
}

-- The first list is a part of the second, in its order.
pub data IsSublist : List Text → List Text → Type 0 where
  done : IsSublist [] []
  skip : (b : Text) {as' bs : List Text} → IsSublist as' bs → IsSublist as' (b ∷ bs)
  keep : (b : Text) {as' bs : List Text} → IsSublist as' bs → IsSublist (b ∷ as') (b ∷ bs)

same_text_refl : (t : Text) → same_text t t ≡ true
unfolding same_text
same_text_refl [] = refl
same_text_refl (c ∷ cs) = ground (arith, same_text_refl cs)

module _ (t : Texts) where
  -- Two lines have one normal form, or similar ones.
  abbrev pub matches : Text → Text → Bool
  matches b a =
      same_text (t.normalize_dedup b) (t.normalize_dedup a)
      || t.similar (t.normalize_dedup b) (t.normalize_dedup a)

  -- A line that was seen before, by its key.
  abbrev was_seen : List Text → Text → Bool
  was_seen seen b =
      any (same_text (t.normalize_dedup b)) seen || any (t.similar (t.normalize_dedup b)) seen

  dedupe_from_dropped :
      (seen : List Text) (b : Text) (bs : List Text)
      → is_repeated t seen (t.normalize_dedup b) ≡ true
      → dedupe_from t seen (b ∷ bs) ≡ dedupe_from t seen bs
  unfolding dedupe_from
  dedupe_from_dropped seen b bs e =
      ap
        (λ (r : Bool). elim r as (λ x. List Text) [
          | true ↦ dedupe_from t seen bs
          | false ↦ b ∷ dedupe_from t (t.normalize_dedup b ∷ seen) bs
        ])
        e

  dedupe_from_kept :
      (seen : List Text) (b : Text) (bs : List Text)
      → is_repeated t seen (t.normalize_dedup b) ≡ false
      → dedupe_from t seen (b ∷ bs) ≡ b ∷ dedupe_from t (t.normalize_dedup b ∷ seen) bs
  unfolding dedupe_from
  dedupe_from_kept seen b bs e =
      ap
        (λ (r : Bool). elim r as (λ x. List Text) [
          | true ↦ dedupe_from t seen bs
          | false ↦ b ∷ dedupe_from t (t.normalize_dedup b ∷ seen) bs
        ])
        e

  fresh_is_unseen :
      (seen : List Text) (b : Text)
      → is_repeated t seen (t.normalize_dedup b) ≡ false
      → was_seen seen b ≡ false
  unfolding is_repeated
  fresh_is_unseen seen b e = ground (arith, e)

  dedupe_from-unseen :
      (seen bs : List Text) → All (λ b. was_seen seen b ≡ false) (dedupe_from t seen bs)
  unfolding dedupe_from
  dedupe_from-unseen seen [] = tt
  dedupe_from-unseen seen (b ∷ bs) =
      let key : Text = t.normalize_dedup b in
      elim (Bool-cases (is_repeated t seen key)) [
        | inl e ↦
            subst (All (λ c. was_seen seen c ≡ false)) (sym (dedupe_from_dropped seen b bs e))
              (dedupe_from-unseen seen bs)
        | inr e ↦ subst (All (λ c. was_seen seen c ≡ false)) (sym (dedupe_from_kept seen b bs e)) (
          fresh_is_unseen seen b e,
          All-map (dedupe_from t (key ∷ seen) bs) (λ c h. ground (arith, h))
              (dedupe_from-unseen (key ∷ seen) bs),
        )
      ]

  dedupe_from-apart :
      (seen bs : List Text) → Pairwise (λ a b. matches b a ≡ false) (dedupe_from t seen bs)
  unfolding dedupe_from
  dedupe_from-apart seen [] = tt
  dedupe_from-apart seen (b ∷ bs) =
      let key : Text = t.normalize_dedup b in
      elim (Bool-cases (is_repeated t seen key)) [
        | inl e ↦
            subst (Pairwise (λ a c. matches c a ≡ false)) (sym (dedupe_from_dropped seen b bs e))
              (dedupe_from-apart seen bs)
        | inr e ↦
            subst (Pairwise (λ a c. matches c a ≡ false)) (sym (dedupe_from_kept seen b bs e)) (
              All-map (dedupe_from t (key ∷ seen) bs) (λ c h. ground (arith, h))
                  (dedupe_from-unseen (key ∷ seen) bs),
              dedupe_from-apart (key ∷ seen) bs,
            )
      ]

  dedupe_from-IsSublist : (seen bs : List Text) → IsSublist (dedupe_from t seen bs) bs
  unfolding dedupe_from
  dedupe_from-IsSublist seen [] = done
  dedupe_from-IsSublist seen (b ∷ bs) =
      let key : Text = t.normalize_dedup b in
      elim (Bool-cases (is_repeated t seen key)) [
        | inl e ↦
            subst (λ l. IsSublist l (b ∷ bs)) (sym (dedupe_from_dropped seen b bs e))
              (skip b (dedupe_from-IsSublist seen bs))
        | inr e ↦
            subst (λ l. IsSublist l (b ∷ bs)) (sym (dedupe_from_kept seen b bs e))
              (keep b (dedupe_from-IsSublist (key ∷ seen) bs))
      ]

  -- The line has an empty normal form, or was seen, or has a match among lines.
  abbrev IsCovered : List Text → List Text → Text → Type 0
  IsCovered seen kept b =
      (is_blank (t.normalize_dedup b) ≡ true)
      ⊎ ((was_seen seen b ≡ true) ⊎ Any (λ a. matches b a ≡ true) kept)

  IsCovered-more :
      (seen kept : List Text) (b c : Text)
      → IsCovered (t.normalize_dedup b ∷ seen) kept c
      → IsCovered seen (b ∷ kept) c
  IsCovered-more seen kept b c (inl e) = inl e
  IsCovered-more seen kept b c (inr (inr h)) = inr (inr (inr h))
  IsCovered-more seen kept b c (inr (inl e)) = elim (Bool-cases (matches c b)) [
    | inl m ↦ inr (inr (inl m))
    | inr m ↦ inr (inl (ground (arith, e, m)))
  ]

  dropped-IsCovered :
      (seen kept : List Text) (b : Text)
      → is_repeated t seen (t.normalize_dedup b) ≡ true
      → IsCovered seen kept b
  unfolding is_repeated
  dropped-IsCovered seen kept b e = elim (Bool-cases (is_blank (t.normalize_dedup b))) [
    | inl m ↦ inl m
    | inr m ↦ inr (inl (ground (arith, e, m)))
  ]

  dedupe_from-IsCovered : (seen bs : List Text) → All (IsCovered seen (dedupe_from t seen bs)) bs
  unfolding dedupe_from
  dedupe_from-IsCovered seen [] = tt
  dedupe_from-IsCovered seen (b ∷ bs) =
      let key : Text = t.normalize_dedup b in
      elim (Bool-cases (is_repeated t seen key)) [
        | inl e ↦
            subst (λ l. All (IsCovered seen l) (b ∷ bs)) (sym (dedupe_from_dropped seen b bs e))
              (dropped-IsCovered seen (dedupe_from t seen bs) b e, dedupe_from-IsCovered seen bs)
        | inr e ↦
            subst (λ l. All (IsCovered seen l) (b ∷ bs)) (sym (dedupe_from_kept seen b bs e))
              (
                inr (inr (inl (ground (arith, same_text_refl key)))),
                All-map bs (IsCovered-more seen (dedupe_from t (key ∷ seen) bs) b)
                    (dedupe_from-IsCovered (key ∷ seen) bs),
              )
      ]

  IsCovered-none :
      (kept : List Text) (b : Text)
      → IsCovered [] kept b
      → (is_blank (t.normalize_dedup b) ≡ true) ⊎ Any (λ a. matches b a ≡ true) kept
  IsCovered-none kept b (inl e) = inl e
  IsCovered-none kept b (inr (inl e)) = cc
  IsCovered-none kept b (inr (inr h)) = inr h

  -- The lines that are kept are lines of the list in its order; no line matches one that is kept before
  -- it, by an equal or a similar normal form; and every line of the list with a normal form that is not
  -- empty matches one that is kept.
  pub dedupe_briefs_lem :
      (briefs : List Text)
      → let kept = dedupe_briefs t briefs in
        IsSublist kept briefs
        × Pairwise (λ a b. matches b a ≡ false) kept
        × All
            (λ b. (is_blank (t.normalize_dedup b) ≡ true) ⊎ Any (λ a. matches b a ≡ true) kept)
            briefs
  unfolding dedupe_briefs
  dedupe_briefs_lem briefs = (
    dedupe_from-IsSublist [] briefs,
    dedupe_from-apart [] briefs,
    All-map briefs (IsCovered-none (dedupe_from t [] briefs)) (dedupe_from-IsCovered [] briefs),
  )
