-- ===== src/Models/Spans/Stitched.antt =====
-- What stitching joins, and that the entities of decoded spans never lie outside the text's words.
use mnemostroma.Prelude.{
  ℕ, ◌+◌, ◌-◌, ◌≤◌, ◌<◌, String, ◌≡◌, refl, ◌∙◌, true, false, List, [], ◌∷◌, arith, leb, string_eq,
  All, Bool-cases, inl, inr,
}
use mnemostroma.Prelude.Sort.{sort, insert, insert_all, All-sort, All-map}
use mnemostroma.Models.Spans.{Span, joins, joined, merge, merge_all, stitch_adjacent_spans}
use mnemostroma.Models.Spans.Greedy.{IsSpan}

-- No two neighbours can be joined.
abbrev pub IsStitched : List String → List Span → Type 0
IsStitched stitchable [] = Unit
IsStitched stitchable (a ∷ []) = Unit
IsStitched stitchable (a ∷ b ∷ ss) = (joins stitchable a b ≡ false) × IsStitched stitchable (b ∷ ss)

-- The number of words in the spans.
abbrev pub words_in : List Span → ℕ
words_in [] = 0
words_in (s ∷ ss) = (s.end + 1 - s.start) + words_in ss

-- The first of a merged list has the same start and the same type.
abbrev StartsAs : Span → List Span → Type 0
StartsAs last [] = ⊥
StartsAs last (s ∷ ss) = (s.start ≡ last.start) × (s.entity_type ≡ last.entity_type)

module _ (stitchable : List String) where
  merge_starts : (last : Span) (ss : List Span) → StartsAs last (merge stitchable last ss)
  unfolding merge joined
  merge_starts last [] = (refl, refl)
  merge_starts last (s ∷ ss) = elim (Bool-cases (joins stitchable last s)) [
    | inl e ↦ rw (e, merge) (merge_starts (joined last s) ss)
    | inr e ↦ rw (e, merge) (refl, refl)
  ]

  IsStitched-cons :
      (last s : Span) (ms : List Span)
      → joins stitchable last s ≡ false
      → StartsAs s ms
      → IsStitched stitchable ms
      → IsStitched stitchable (last ∷ ms)
  unfolding joins
  IsStitched-cons last s [] e t h = tt
  IsStitched-cons last s (m ∷ ms) e t h = (rw (t.0, joins) (rw (t.1, joins) e), h)

  merge-IsStitched :
      (last : Span) (ss : List Span) → IsStitched stitchable (merge stitchable last ss)
  unfolding merge
  merge-IsStitched last [] = tt
  merge-IsStitched last (s ∷ ss) = elim (Bool-cases (joins stitchable last s)) [
    | inl e ↦ rw (e, merge) (merge-IsStitched (joined last s) ss)
    | inr e ↦
        rw (e, merge)
          (IsStitched-cons last s (merge stitchable s ss) e (merge_starts s ss)
            (merge-IsStitched s ss))
  ]

  words_in-merge :
      (last : Span) (ss : List Span)
      → IsSpan last
      → All IsSpan ss
      → words_in (merge stitchable last ss) ≡ words_in (last ∷ ss)
  unfolding merge joins joined
  words_in-merge last [] l h = refl
  words_in-merge last (s ∷ ss) l h = elim (Bool-cases (joins stitchable last s)) [
    | inl e ↦
        let next : s.start ≡ last.end + 1 = ground arith in
        rw (e, merge)
          (omega (
            arith,
            next,
            h.0,
            l,
            words_in-merge (joined last s) ss (omega (arith, next, h.0, l)) h.1,
          ))
    | inr e ↦ rw (e, merge) (omega (arith, words_in-merge s ss h.0 h.1))
  ]

  -- What joining keeps, merging keeps.
  All-merge :
      (P : Span → Type 0)
      → ((a b : Span) → P a → P b → joins stitchable a b ≡ true → P (joined a b))
      → (last : Span) (ss : List Span) → P last
      → All P ss
      → All P (merge stitchable last ss)
  unfolding merge
  All-merge P f last [] l h = (l, tt)
  All-merge P f last (s ∷ ss) l h = elim (Bool-cases (joins stitchable last s)) [
    | inl e ↦ rw (e, merge) (All-merge P f (joined last s) ss (f last s l h.0 e) h.1)
    | inr e ↦ rw (e, merge) (l, All-merge P f s ss h.0 h.1)
  ]

  merge_all-IsStitched : (ss : List Span) → IsStitched stitchable (merge_all stitchable ss)
  unfolding merge_all
  merge_all-IsStitched [] = tt
  merge_all-IsStitched (s ∷ ss) = merge-IsStitched s ss

  words_in-merge_all :
      (ss : List Span) → All IsSpan ss → words_in (merge_all stitchable ss) ≡ words_in ss
  unfolding merge_all
  words_in-merge_all [] h = refl
  words_in-merge_all (s ∷ ss) h = words_in-merge s ss h.0 h.1

  All-merge_all :
      (P : Span → Type 0)
      → ((a b : Span) → P a → P b → joins stitchable a b ≡ true → P (joined a b))
      → (ss : List Span) → All P ss
      → All P (merge_all stitchable ss)
  unfolding merge_all
  All-merge_all P f [] h = tt
  All-merge_all P f (s ∷ ss) h = All-merge P f s ss h.0 h.1

words_in-insert :
    (key : Span → ℕ) (x : Span) (ys : List Span)
    → words_in (insert key x ys) ≡ (x.end + 1 - x.start) + words_in ys
words_in-insert key x [] = refl
words_in-insert key x (y ∷ ys) = elim (Bool-cases (leb (key y) (key x))) [
  | inl e ↦ rw e (omega (arith, words_in-insert key x ys))
  | inr e ↦ rw e refl
]

words_in-insert_all :
    (key : Span → ℕ) (done xs : List Span)
    → words_in (insert_all key done xs) ≡ words_in done + words_in xs
words_in-insert_all key done [] = omega arith
words_in-insert_all key done (x ∷ xs) =
    omega (arith, words_in-insert_all key (insert key x done) xs, words_in-insert key x done)

words_in-sort : (key : Span → ℕ) (xs : List Span) → words_in (sort key xs) ≡ words_in xs
words_in-sort key xs = omega (arith, words_in-insert_all key [] xs)

-- A range within the first `n` words.
abbrev pub IsWithinWords : ℕ → Span → Type 0
IsWithinWords n s = (s.start ≤ s.end) × (s.end < n)

joined-IsWithinWords :
    (stitchable : List String) (n : ℕ) (a b : Span)
    → IsWithinWords n a
    → IsWithinWords n b
    → joins stitchable a b ≡ true
    → IsWithinWords n (joined a b)
unfolding joins joined
joined-IsWithinWords stitchable n a b ha hb e = ground arith

-- Of ranges within the first `n` words, stitching leaves no two neighbours that can be joined; it
-- keeps the number of the words that are in the spans; and its spans are ranges within the `n` words.
pub stitch_adjacent_spans_lem :
    (stitchable : List String) (n : ℕ) (ss : List Span)
    → All (IsWithinWords n) ss
    → IsStitched stitchable (stitch_adjacent_spans stitchable ss)
      × (words_in (stitch_adjacent_spans stitchable ss) ≡ words_in ss)
      × All (IsWithinWords n) (stitch_adjacent_spans stitchable ss)
unfolding stitch_adjacent_spans
stitch_adjacent_spans_lem stitchable n ss h =
    let by_end : List Span = sort (λ (s : Span). s.end) ss in
    let ordered : List Span = sort (λ (s : Span). s.start) by_end in
    let w : All (IsWithinWords n) ordered =
      All-sort (IsWithinWords n) (λ (s : Span). s.start) by_end
        (All-sort (IsWithinWords n) (λ (s : Span). s.end) ss h) in
    (
      merge_all-IsStitched stitchable ordered,
      words_in-merge_all stitchable ordered (All-map ordered (λ s k. k.0) w)
          ∙ words_in-sort (λ (s : Span). s.start) by_end
          ∙ words_in-sort (λ (s : Span). s.end) ss,
      All-merge_all stitchable (IsWithinWords n) (joined-IsWithinWords stitchable n) ordered w,
    )
