-- ===== src/Models/Chunks/Tests.antt =====
-- Small texts, of which each character counts as a token.
use mnemostroma.Prelude.{ℕ, ◌≡◌, refl, none, List, [], ◌∷◌, ◌⊎◌, length, concat, All}
use mnemostroma.Prelude.SortDown.{Any}
use mnemostroma.Models.Chunks.{
  Text, make_token_counter, split_oversized, Splits, pack, chunk_content,
}
use mnemostroma.Models.Chunks.Cut.{IsPiece}
use mnemostroma.Models.Chunks.Content.{content, split_oversized_lem}

abbrev count : Text → ℕ
count t = length t

-- A word of four characters is cut at its third: a target of one allows three characters.
long_word_cut :
    split_oversized count 1 (97 ∷ 98 ∷ 99 ∷ 100 ∷ []) ((97 ∷ 98 ∷ 99 ∷ 100 ∷ []) ∷ [])
    ≡ (97 ∷ 98 ∷ 99 ∷ []) ∷ (100 ∷ []) ∷ []
unfolding split_oversized
long_word_cut = refl

-- A word that is as long stays whole behind another word, however small the target.
long_word_whole :
    split_oversized count 2
      (97 ∷ 32 ∷ 98 ∷ 98 ∷ 98 ∷ 98 ∷ 98 ∷ 98 ∷ 98 ∷ 98 ∷ [])
      ((97 ∷ []) ∷ (98 ∷ 98 ∷ 98 ∷ 98 ∷ 98 ∷ 98 ∷ 98 ∷ 98 ∷ []) ∷ [])
    ≡ (97 ∷ []) ∷ (98 ∷ 98 ∷ 98 ∷ 98 ∷ 98 ∷ 98 ∷ 98 ∷ 98 ∷ []) ∷ []
unfolding split_oversized
long_word_whole = refl

-- With a target of four and an overlap of two, the second chunk has five tokens.
above_target : pack (λ (n : ℕ). n) 4 2 [] 0 (2 ∷ 2 ∷ 3 ∷ []) ≡ (2 ∷ 2 ∷ []) ∷ (2 ∷ 3 ∷ []) ∷ []
unfolding pack
above_target = refl

no_tokenizer : make_token_counter none (97 ∷ 98 ∷ 99 ∷ 100 ∷ 101 ∷ 102 ∷ 103 ∷ []) ≡ 2
unfolding make_token_counter
no_tokenizer = refl

split_oversized_lem_example :
    let ws : List Text = (97 ∷ []) ∷ (98 ∷ 98 ∷ []) ∷ [] in
    let atom : Text = 97 ∷ 32 ∷ 98 ∷ 98 ∷ [] in
    (content (concat (split_oversized count 3 atom ws)) ≡ content atom)
    × All
        (λ p. IsPiece count 3 (λ w. Any (λ x. x ≡ w) ws) p ⊎ ((p ≡ atom) × (content atom ≡ [])))
        (split_oversized count 3 atom ws)
split_oversized_lem_example =
    split_oversized_lem count 3 (97 ∷ 32 ∷ 98 ∷ 98 ∷ []) ((97 ∷ []) ∷ (98 ∷ 98 ∷ []) ∷ []) refl

-- Splits that leave a text whole.
abbrev whole : Text → List Text
whole t = t ∷ []

abbrev whole_splits : Splits
whole_splits = record { coarse = whole; finer = whole; words = whole }

chunked :
    chunk_content whole_splits count 1 0 (97 ∷ 98 ∷ 99 ∷ 100 ∷ [])
    ≡ (97 ∷ 98 ∷ 99 ∷ []) ∷ (100 ∷ []) ∷ []
unfolding chunk_content
chunked = refl
