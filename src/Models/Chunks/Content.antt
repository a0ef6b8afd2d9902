-- ===== src/Models/Chunks/Content.antt =====
-- That chunking loses no content.
use mathlib.Core.List.{append-nil}
use mnemostroma.Prelude.{
  ℕ, ◌≡◌, refl, ◌∙◌, sym, ap, List, [], ◌∷◌, if◌then◌else◌, concat, All, inl, inr, ◌⊎◌,
}
use mnemostroma.Prelude.Text.{is_space}
use mnemostroma.Prelude.Sort.{All-map}
use mnemostroma.Prelude.SortDown.{Any, members}
use mnemostroma.Models.Chunks.{Text, is_empty, split_words, split_oversized, Splits}
use mnemostroma.Models.Chunks.Cut.{unspaced, unspaced-split_words, IsPiece, split_words-IsPiece}

-- A text without its white space.
abbrev pub content : Text → Text
content = unspaced is_space

-- What `re.split` and `str.split` keep of a text: they take nothing off but white space.
pub record IsSplit (s : Splits) : Type 0 where
  pub coarse_keeps : (t : Text) → content (concat (s.coarse t)) ≡ content t
  pub finer_keeps : (t : Text) → content (concat (s.finer t)) ≡ content t
  pub words_keep : (t : Text) → content (concat (s.words t)) ≡ content t

-- Cutting a fragment that is too big keeps its content. Each piece counts less than the target, or has at most
-- three and a half characters for each token of the target, or is one whole word of the fragment, or there
-- are no words and it is the fragment.
pub split_oversized_lem :
    (count : Text → ℕ) (target : ℕ) (atom : Text) (words : List Text)
    → content (concat words) ≡ content atom
    → (content (concat (split_oversized count target atom words)) ≡ content atom)
      × All
          (λ p.
            IsPiece count target (λ w. Any (λ x. x ≡ w) words) p
            ⊎ ((p ≡ atom) × (content atom ≡ [])))
          (split_oversized count target atom words)
unfolding split_oversized
split_oversized_lem count target atom words h =
    go (split_words count target [] words)
      (unspaced-split_words is_space refl count target [] words ∙ h)
      (split_words-IsPiece count target (λ w. Any (λ x. x ≡ w) words) [] words tt (members words))
  where
    go :
        (pieces : List Text)
        → content (concat pieces) ≡ content atom
        → All (IsPiece count target (λ w. Any (λ x. x ≡ w) words)) pieces
        → (content (concat (if is_empty pieces then atom ∷ [] else pieces)) ≡ content atom)
          × All
              (λ p.
                IsPiece count target (λ w. Any (λ x. x ≡ w) words) p
                ⊎ ((p ≡ atom) × (content atom ≡ [])))
              (if is_empty pieces then atom ∷ [] else pieces)
    go [] k l = (ap content (append-nil atom), (inr (refl, sym k), tt))
    go (p ∷ ps) k l = (k, (inl l.0, All-map ps (λ x q. inl q) l.1))
