-- ===== src/Models/Spans/Tests.antt =====
-- A text of three words, a date of two of them, and a model with two classes and spans of one word.
use mnemostroma.Prelude.{
  ℕ, String, ◌≡◌, refl, true, false, List, [], ◌∷◌, ◌⊎◌, arith, nat_eq, string_eq, All, take,
}
use mnemostroma.Prelude.Dict.{Dict, get}
use mnemostroma.Prelude.Sort.{IsSorted}
use mnemostroma.Prelude.SortDown.{Any, Pairwise}
use mnemostroma.Prelude.Result.{ok, err}
use mnemostroma.Models.Spans.{
  Span, Hit, SpanError, unknown_class, greedy_search, decode_spans, stitch_adjacent_spans, Entity,
  entities_of,
}
use mnemostroma.Models.Spans.Greedy.{IsCompatible, IsSettled, greedy_search_lem}
use mnemostroma.Models.Spans.Decoded.{IsUnknown}
use mnemostroma.Models.Spans.Stitched.{IsStitched, IsWithinWords}
use mnemostroma.Models.Spans.Entities.{AreEntities, entities_of_lem}

abbrev span : ℕ → ℕ → String → ℕ → Span
span start end entity_type score = record {
  start = start;
  end = end;
  entity_type = entity_type;
  score = score;
}

-- The middle span has the best score, so both that it touches are dropped.
abbrev three : List Span
three = span 0 2 "person" 60 ∷ span 4 5 "date" 50 ∷ span 2 4 "place" 90 ∷ []

middle_kept : greedy_search true false three ≡ span 2 4 "place" 90 ∷ []
unfolding greedy_search
middle_kept = refl

greedy_search_lem_example :
    All (λ k. Any (λ s. s ≡ k) three) (greedy_search true false three)
    × IsSorted (λ (s : Span). s.start) (greedy_search true false three)
    × Pairwise (IsCompatible true false) (greedy_search true false three)
    × All (IsSettled true false (greedy_search true false three)) three
greedy_search_lem_example = greedy_search_lem true false three (omega arith)

abbrev classes : Dict ℕ String
classes = (1, "date") ∷ (2, "person") ∷ []

abbrev probs : List (List (List ℕ))
probs = ((10 ∷ 20 ∷ []) ∷ []) ∷ ((90 ∷ 10 ∷ []) ∷ []) ∷ ((70 ∷ 30 ∷ []) ∷ []) ∷ []

abbrev dates : List Span
dates = span 1 1 "date" 90 ∷ span 2 2 "date" 70 ∷ []

decoded : decode_spans probs 3 classes 50 true false ≡ ok dates
unfolding decode_spans get
decoded = refl

abbrev last_hit : Hit
last_hit = record { start = 2; width = 0; class_idx = 0; score = 70 }

date_joined : stitch_adjacent_spans ("date" ∷ []) dates ≡ span 1 2 "date" 70 ∷ []
unfolding stitch_adjacent_spans
date_joined = refl

abbrev words : List (ℕ × ℕ)
words = (0, 1) ∷ (2, 3) ∷ (4, 5) ∷ (6, 7) ∷ []

abbrev text : List ℕ
text = 97 ∷ 32 ∷ 98 ∷ 32 ∷ 99 ∷ 32 ∷ 100 ∷ []

extracted :
    entities_of probs 3 classes 50 true ("date" ∷ []) words text
    ≡ ok (
        record { entity_type = "date"; value = 98 ∷ 32 ∷ 99 ∷ []; score = 70; start = 2; end = 5 }
        ∷ [])
unfolding entities_of get
extracted = refl

unknown :
    entities_of probs 3 ((2, "person") ∷ []) 50 true ("date" ∷ []) words text
    ≡ err (unknown_class 1)
unfolding entities_of get
unknown = refl

entities_of_lem_example :
    ((ss : List Span) × (es : List Entity) × (entities_of probs 3 classes 50 true
          ("date" ∷ [])
          words
          text
        ≡ ok es)
      × All (IsWithinWords 3) ss
      × IsStitched ("date" ∷ []) ss
      × AreEntities (take 3 words) text ss es)
    ⊎ ((e : SpanError) × (h : Hit) × (entities_of probs 3 classes 50 true ("date" ∷ []) words text
          ≡ err e)
        × IsUnknown probs 3 classes 50 e h)
entities_of_lem_example =
    entities_of_lem probs 3 classes 50 true ("date" ∷ []) words text (omega arith)
