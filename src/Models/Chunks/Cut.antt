-- ===== src/Models/Chunks/Cut.antt =====
-- What the cutting of a fragment that is too big keeps, and how large a piece is.
use mathlib.Core.Path.{subst}
use mathlib.Core.List.{append_assoc, append-nil}
use mnemostroma.Prelude.{
  ℕ, ◌≤◌, ◌<◌, ◌≡◌, refl, ◌∙◌, sym, ap, Bool, true, false, List, [], ◌∷◌, ◌++◌, arith, ◌=ℕ◌, leb,
  if◌then◌else◌, length, length-append, concat, All, All-append, Bool-cases, inl, inr, ◌⊎◌,
}
use mnemostroma.Prelude.Sort.{All-map}
use mnemostroma.Models.Chunks.{Text, is_empty, join, char_limit, cut_word, split_words}

cut_word_lem :
    (limit : ℕ) (part cs : Text)
    → 1 ≤ limit
    → length part ≤ limit
    → (concat (cut_word limit part cs) ≡ part ++ cs)
      × All (λ (p : Text). length p ≤ limit) (cut_word limit part cs)
unfolding cut_word
cut_word_lem limit [] [] l h = (refl, tt)
cut_word_lem limit (p ∷ part) [] l h = (refl, (h, tt))
cut_word_lem limit part (c ∷ cs) l h = elim (Bool-cases (length part =ℕ limit)) [
  | inl full ↦
      let (e, a) = cut_word_lem limit (c ∷ []) cs l (omega arith) in
      rw (full, cut_word) (ap (λ r. part ++ r) e, (h, a))
  | inr room ↦
      let (e, a) =
        cut_word_lem limit (part ++ c ∷ []) cs l (ground (arith, length-append part (c ∷ []))) in
      rw (room, cut_word) (e ∙ append_assoc part (c ∷ []) cs, a)
]

module _ (blank : ℕ → Bool) where
  -- A text without its blanks.
  abbrev pub unspaced : Text → Text
  unspaced [] = []
  unspaced (c ∷ cs) = if blank c then unspaced cs else c ∷ unspaced cs

  pub unspaced-append : (a b : Text) → unspaced (a ++ b) ≡ unspaced a ++ unspaced b
  unspaced-append [] b = refl
  unspaced-append (c ∷ cs) b = ground (arith, unspaced-append cs b)

  pub unspaced-concat :
      (ps qs : List Text)
      → unspaced (concat (ps ++ qs)) ≡ unspaced (concat ps) ++ unspaced (concat qs)
  unspaced-concat [] qs = refl
  unspaced-concat (p ∷ ps) qs =
      unspaced-append p (concat (ps ++ qs))
      ∙ ap (λ r. unspaced p ++ r) (unspaced-concat ps qs)
      ∙ sym (append_assoc (unspaced p) (unspaced (concat ps)) (unspaced (concat qs)))
      ∙ ap (λ r. r ++ unspaced (concat qs)) (sym (unspaced-append p (concat ps)))

char_limit-pos : (target : ℕ) → 1 ≤ char_limit target
unfolding char_limit
char_limit-pos target = ground arith

module _ (blank : ℕ → Bool) (space : blank 32 ≡ true) where
  unspaced-join : (ws : List Text) → unspaced blank (join (32 ∷ []) ws) ≡ unspaced blank (concat ws)
  unfolding join
  unspaced-join [] = refl
  unspaced-join (w ∷ []) = ap (unspaced blank) (sym (append-nil w))
  unspaced-join (w ∷ v ∷ ws) =
      unspaced-append blank w (32 ∷ join (32 ∷ []) (v ∷ ws))
      ∙ rw space (ap (λ r. unspaced blank w ++ r) (unspaced-join (v ∷ ws)))
      ∙ sym (unspaced-append blank w (concat (v ∷ ws)))

  module _ (count : Text → ℕ) (target : ℕ) where
    -- The text of the buffer and of the words that are left is in the pieces.
    pub unspaced-split_words :
        (buffer words : List Text)
        → unspaced blank (concat (split_words count target buffer words))
          ≡ unspaced blank (concat (buffer ++ words))
    unfolding split_words
    unspaced-split_words [] [] = refl
    unspaced-split_words (b ∷ bs) [] =
        ap (unspaced blank) (append-nil (join (32 ∷ []) (b ∷ bs)))
        ∙ unspaced-join (b ∷ bs)
        ∙ ap (λ l. unspaced blank (concat l)) (sym (append-nil (b ∷ bs)))
    unspaced-split_words buffer (word ∷ words) =
        elim (Bool-cases (leb target (count (join (32 ∷ []) (buffer ++ word ∷ []))))) [
          | inr small ↦
              rw (small, split_words)
                (unspaced-split_words (buffer ++ word ∷ []) words
                  ∙ ap (λ l. unspaced blank (concat l)) (append_assoc buffer (word ∷ []) words))
          | inl big ↦
              rw (big, split_words)
                (go buffer (unspaced-split_words (word ∷ []) words) (unspaced-split_words [] words))
        ]
      where
        go :
            (buf : List Text)
            → unspaced blank (concat (split_words count target (word ∷ []) words))
              ≡ unspaced blank (concat (word ∷ words))
            → unspaced blank (concat (split_words count target [] words))
              ≡ unspaced blank (concat words)
            → unspaced blank (
                concat (elim (is_empty buf) [
                  | false ↦ join (32 ∷ []) buf ∷ split_words count target (word ∷ []) words
                  | true ↦ cut_word (char_limit target) [] word ++ split_words count target [] words
                ]))
              ≡ unspaced blank (concat (buf ++ word ∷ words))
        go [] k l =
            unspaced-concat blank (cut_word (char_limit target) [] word)
              (split_words count target [] words)
            ∙ rw
                ((cut_word_lem (char_limit target) [] word (char_limit-pos target) (omega arith)).0)
                (ap (λ r. unspaced blank word ++ r) l)
            ∙ sym (unspaced-append blank word (concat words))
        go (b ∷ bs) k l =
            unspaced-append blank (join (32 ∷ []) (b ∷ bs))
              (concat (split_words count target (word ∷ []) words))
            ∙ rw (unspaced-join (b ∷ bs)) (rw k refl)
            ∙ sym (unspaced-concat blank (b ∷ bs) (word ∷ words))

module _ (count : Text → ℕ) (target : ℕ) (P : Text → Type 0) where
  -- A piece is under the target, or within the limit of characters, or one whole word.
  abbrev pub IsPiece : Text → Type 0
  IsPiece p = (count p < target) ⊎ (length p ≤ char_limit target) ⊎ P p

  -- The buffer is under the target, or holds one word.
  abbrev IsBuffer : List Text → Type 0
  IsBuffer [] = Unit
  IsBuffer (b ∷ bs) = (count (join (32 ∷ []) (b ∷ bs)) < target) ⊎ ((bs ≡ []) × P b)

  joined-IsPiece :
      (b : Text) (bs : List Text) → IsBuffer (b ∷ bs) → IsPiece (join (32 ∷ []) (b ∷ bs))
  unfolding join
  joined-IsPiece b bs (inl h) = inl h
  joined-IsPiece b bs (inr (e, p)) = inr (inr (subst (λ l. P (join (32 ∷ []) (b ∷ l))) (sym e) p))

  snoc-IsBuffer :
      (buffer : List Text) (word : Text)
      → count (join (32 ∷ []) (buffer ++ word ∷ [])) < target
      → IsBuffer (buffer ++ word ∷ [])
  snoc-IsBuffer [] word h = inl h
  snoc-IsBuffer (b ∷ bs) word h = inl h

  pub split_words-IsPiece :
      (buffer words : List Text)
      → IsBuffer buffer
      → All P words
      → All IsPiece (split_words count target buffer words)
  unfolding split_words join
  split_words-IsPiece [] [] b h = tt
  split_words-IsPiece (x ∷ bs) [] b h = (joined-IsPiece x bs b, tt)
  split_words-IsPiece buffer (word ∷ words) b h =
      elim (Bool-cases (leb target (count (join (32 ∷ []) (buffer ++ word ∷ []))))) [
        | inr small ↦
            rw (small, split_words)
              (split_words-IsPiece (buffer ++ word ∷ []) words
                (snoc-IsBuffer buffer word (ground arith)) h.1)
        | inl big ↦
            rw (big, split_words)
              (go buffer b (split_words-IsPiece (word ∷ []) words (inr (refl, h.0)) h.1)
                (split_words-IsPiece [] words tt h.1))
      ]
    where
      go :
          (buf : List Text)
          → IsBuffer buf
          → All IsPiece (split_words count target (word ∷ []) words)
          → All IsPiece (split_words count target [] words)
          → All IsPiece (elim (is_empty buf) [
            | false ↦ join (32 ∷ []) buf ∷ split_words count target (word ∷ []) words
            | true ↦ cut_word (char_limit target) [] word ++ split_words count target [] words
          ])
      go [] c k l =
          All-append IsPiece (cut_word (char_limit target) [] word)
            (split_words count target [] words)
            (All-map (cut_word (char_limit target) [] word) (λ p q. inr (inl q))
              (cut_word_lem (char_limit target) [] word (char_limit-pos target) (omega arith)).1)
            l
      go (x ∷ bs) c k l = (joined-IsPiece x bs c, k)
