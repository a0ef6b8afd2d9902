-- ===== src/Models/Chunks.antt =====
-- models/embedding_utils.py: content is cut into chunks that fit the window of an embedder. Text is
-- its code points. The tokenizer of the embedder is a function that counts; the paragraphs, lines
-- and sentences that the regular expressions find are a function too.
pub mod Packed
pub mod Cut
pub mod Content
mod Tests
use mnemostroma.Prelude.{
  ℕ, zero, suc, ◌+◌, ◌*◌, ◌/◌, ◌≤◌, ◌<◌, String, Bool, true, false, not, ◌&&◌, Option, none, some,
  List, [], ◌∷◌, ◌++◌, ◌=ℕ◌, ltb, leb, if◌then◌else◌, length, map, concat,
}
use mnemostroma.Prelude.SortDown.{reverse}

abbrev pub Text : Type 0
Text = List ℕ

abbrev pub is_empty {ℓ} : {A : Type ℓ} → List A → Bool
is_empty [] = true
is_empty (x ∷ xs) = false

-- `max(1, int(len(text) / 3.5))`
pub heuristic_token_count : Text → ℕ
heuristic_token_count text = let n = (length text * 2) / 7 in if ltb n 1 then 1 else n

counted : Text → Option ℕ → ℕ
unfolding heuristic_token_count
counted text none = heuristic_token_count text
counted text (some n) = n

-- A tokenizer answers with a number, or raises.
pub make_token_counter : Option (Text → Option ℕ) → Text → ℕ
unfolding counted
make_token_counter none text = heuristic_token_count text
make_token_counter (some tokenizer) text = counted text (tokenizer text)

-- `sep.join(parts)`
pub join : Text → List Text → Text
join sep [] = []
join sep (p ∷ []) = p
join sep (p ∷ q ∷ ps) = p ++ (sep ++ join sep (q ∷ ps))

-- `max(1, int(target * 3.5))`
pub char_limit : ℕ → ℕ
char_limit target = let limit = (target * 7) / 2 in if ltb limit 1 then 1 else limit

-- `[word[i:i + limit] for i in range(0, len(word), limit)]`, with the part that is being read.
pub cut_word : ℕ → Text → Text → List Text
cut_word limit part [] = if is_empty part then [] else part ∷ []
cut_word limit part (c ∷ cs) = elim (length part =ℕ limit) [
  | true ↦ part ∷ cut_word limit (c ∷ []) cs
  | false ↦ cut_word limit (part ++ c ∷ []) cs
]

module _ (count : Text → ℕ) (target : ℕ) where
  -- The loop of `_split_oversized`, from its buffer, on the words of `atom.split()`.
  pub split_words : List Text → List Text → List Text
  unfolding join cut_word char_limit
  split_words buffer [] = if is_empty buffer then [] else join (32 ∷ []) buffer ∷ []
  split_words buffer (word ∷ words) =
      elim (leb target (count (join (32 ∷ []) (buffer ++ word ∷ [])))) [
        | false ↦ split_words (buffer ++ word ∷ []) words
        | true ↦ elim (is_empty buffer) [
          | false ↦ join (32 ∷ []) buffer ∷ split_words (word ∷ []) words
          | true ↦ cut_word (char_limit target) [] word ++ split_words [] words
        ]
      ]

  -- `pieces or [atom]`
  pub split_oversized : Text → List Text → List Text
  unfolding split_words
  split_oversized atom words =
      let pieces = split_words [] words in if is_empty pieces then atom ∷ [] else pieces

-- What the regular expressions and `str.split` find in a text: the coarse parts, the finer parts of
-- one that is too big, and its words. Parts are stripped, and none is blank.
pub record Splits : Type 0 where
  pub coarse : Text → List Text
  pub finer : Text → List Text
  pub words : Text → List Text

module _ (s : Splits) (count : Text → ℕ) (target : ℕ) where
  atoms_of_pieces : List Text → List Text
  unfolding split_oversized
  atoms_of_pieces [] = []
  atoms_of_pieces (piece ∷ pieces) =
      (if ltb (count piece) target
        then piece ∷ []
        else split_oversized count target piece (s.words piece))
      ++ atoms_of_pieces pieces

  atoms_of_parts : List Text → List Text
  unfolding atoms_of_pieces
  atoms_of_parts [] = []
  atoms_of_parts (part ∷ parts) =
      (if ltb (count part) target then part ∷ [] else atoms_of_pieces (s.finer part))
      ++ atoms_of_parts parts

  pub atoms : Text → List Text
  unfolding atoms_of_parts
  atoms text = atoms_of_parts (s.coarse text)

module _ {ℓ} {A : Type ℓ} (count : A → ℕ) where
  abbrev pub tokens : List A → ℕ
  tokens [] = 0
  tokens (a ∷ as') = count a + tokens as'

  -- The loop of `_tail_for_overlap`, over the atoms from the last one backwards.
  pub tail_from : ℕ → List A → List A → ℕ → List A
  tail_from overlap [] tail total = tail
  tail_from overlap (a ∷ before) tail total =
      elim (ltb overlap (total + count a) && not (is_empty tail)) [
        | true ↦ tail
        | false ↦ tail_from overlap before (a ∷ tail) (total + count a)
      ]

  pub tail_for_overlap : ℕ → List A → List A
  unfolding tail_from
  tail_for_overlap overlap chunk_atoms =
      let tail = tail_from overlap (reverse chunk_atoms) [] 0 in
      if ltb 0 overlap then (if length tail =ℕ length chunk_atoms then [] else tail) else []

  -- The loop of `chunk_content`, from the current chunk and its tokens: the chunks as lists of atoms.
  pub pack : ℕ → ℕ → List A → ℕ → List A → List (List A)
  unfolding tail_for_overlap
  pack target overlap current current_tokens [] = if is_empty current then [] else current ∷ []
  pack target overlap current current_tokens (a ∷ as') =
      elim (not (is_empty current) && ltb target (current_tokens + count a)) [
        | true ↦
            let carry = tail_for_overlap overlap current in
            current ∷ pack target overlap (carry ++ a ∷ []) (tokens carry + count a) as'
        | false ↦ pack target overlap (current ++ a ∷ []) (current_tokens + count a) as'
      ]

-- Blank text has no parts, so that the two early returns give what the loop gives.
pub chunk_content : Splits → (Text → ℕ) → ℕ → ℕ → Text → List Text
unfolding atoms pack
chunk_content s count target overlap text =
    map (join (10 ∷ 10 ∷ [])) (pack count target overlap [] 0 (atoms s count target text))
