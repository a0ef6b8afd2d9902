-- ===== src/Models/Spans.antt =====
-- models/gliner_decode.py: from the probabilities of a GLiNER model to entities. The array of
-- probabilities is a list of starts, each a list of widths, each a list of classes; the sigmoid
-- has been applied. A score is a number in one unit of a probability. Text is its code points.
pub mod Kept
pub mod Greedy
pub mod Decoded
pub mod Found
pub mod Stitched
pub mod Entities
mod Tests
use mnemostroma.Prelude.{
  ℕ, zero, suc, ◌+◌, ◌-◌, ◌≤◌, String, Bool, true, false, not, ◌&&◌, ◌||◌, Option, none, some, List,
  [], ◌∷◌, ◌++◌, min, ◌=ℕ◌, ltb, leb, if◌then◌else◌, ◌==◌, nat_eq, string_eq, any, select, length,
  get_elem?, take, drop, contains,
}
use mnemostroma.Prelude.Dict.{Dict, get}
use mnemostroma.Prelude.Sort.{sort}
use mnemostroma.Prelude.SortDown.{sort_down}
use mnemostroma.Prelude.Result.{Result, ok, err, ◌>>=◌}

-- In word indices, both ends included.
pub record Span : Type 0 where
  pub start : ℕ
  pub end : ℕ
  pub entity_type : String
  pub score : ℕ

same_range : Span → Span → Bool
same_range a b = a.start =ℕ b.start && a.end =ℕ b.end

pub is_nested : Span → Span → Bool
is_nested a b = (leb a.start b.start && leb b.end a.end) || (leb b.start a.start && leb a.end b.end)

apart : Span → Span → Bool
apart a b = ltb b.end a.start || ltb a.end b.start

pub has_overlapping : Bool → Span → Span → Bool
unfolding same_range apart
has_overlapping multi_label a b = if same_range a b then not multi_label else not (apart a b)

pub has_overlapping_nested : Bool → Span → Span → Bool
unfolding same_range apart is_nested
has_overlapping_nested multi_label a b =
    if same_range a b then not multi_label else not (apart a b || is_nested a b)

pub conflicts : Bool → Bool → Span → Span → Bool
unfolding has_overlapping has_overlapping_nested
conflicts flat_ner multi_label a b =
    if flat_ner then has_overlapping multi_label a b else has_overlapping_nested multi_label a b

-- The loop of `greedy_search`.
pub keep : (Span → Span → Bool) → List Span → List Span → List Span
keep clash kept [] = kept
keep clash kept (span ∷ spans) =
    keep clash (if any (clash span) kept then kept else kept ++ span ∷ []) spans

pub greedy_search : Bool → Bool → List Span → List Span
unfolding conflicts keep
greedy_search flat_ner multi_label spans =
    sort (λ (s : Span). s.start)
      (keep (conflicts flat_ner multi_label) [] (sort_down (λ (s : Span). s.score) spans))

-- `np.nonzero(probs > threshold)`, in its order, with the scores: start, width, class and score.
pub record Hit : Type 0 where
  pub start : ℕ
  pub width : ℕ
  pub class_idx : ℕ
  pub score : ℕ

hits_at : ℕ → ℕ → ℕ → ℕ → List ℕ → List Hit
hits_at threshold start width class_idx [] = []
hits_at threshold start width class_idx (p ∷ ps) =
    let rest = hits_at threshold start width (class_idx + 1) ps in
    if ltb threshold p
    then record { start = start; width = width; class_idx = class_idx; score = p } ∷ rest
    else rest

hits_from : ℕ → ℕ → ℕ → List (List ℕ) → List Hit
unfolding hits_at
hits_from threshold start width [] = []
hits_from threshold start width (row ∷ rows) =
    hits_at threshold start width 0 row ++ hits_from threshold start (width + 1) rows

pub hits : ℕ → ℕ → List (List (List ℕ)) → List Hit
unfolding hits_from
hits threshold start [] = []
hits threshold start (plane ∷ planes) =
    hits_from threshold start 0 plane ++ hits threshold (start + 1) planes

pub is_inside : ℕ → Hit → Bool
is_inside num_words h = leb (h.start + h.width + 1) num_words

-- A class id that is not known is a ValueError, which carries the id.
pub data SpanError : Type 0 where
  unknown_class : ℕ → SpanError
  outside_offsets : ℕ → ℕ → ℕ → SpanError

span_of : Hit → Option String → Result SpanError Span
span_of h none = err (unknown_class (h.class_idx + 1))
span_of h (some entity_type) = ok (record {
  start = h.start;
  end = h.start + h.width;
  entity_type = entity_type;
  score = h.score;
})

pub spans_of : Dict ℕ String → List Hit → Result SpanError (List Span)
unfolding span_of
spans_of id_to_class [] = ok []
spans_of id_to_class (h ∷ hs) = do
  span ← span_of h (get id_to_class (h.class_idx + 1))
  rest ← spans_of id_to_class hs
  ok (span ∷ rest)

pub decode_spans :
    List (List (List ℕ)) → ℕ → Dict ℕ String → ℕ → Bool → Bool → Result SpanError (List Span)
unfolding hits is_inside spans_of greedy_search
decode_spans probs num_words id_to_class threshold flat_ner multi_label = do
  spans ← spans_of id_to_class (select (is_inside num_words) (hits threshold 0 probs))
  ok (greedy_search flat_ner multi_label spans)

-- The test of `stitch_adjacent_spans` on two neighbours.
pub joins : List String → Span → Span → Bool
joins stitchable last span =
    (span.entity_type == last.entity_type)
    && (contains span.entity_type stitchable && span.start =ℕ last.end + 1)

pub joined : Span → Span → Span
joined last span = record {
  start = last.start;
  end = span.end;
  entity_type = last.entity_type;
  score = min last.score span.score;
}

-- The loop, from the span that is merged last.
pub merge : List String → Span → List Span → List Span
unfolding joins joined
merge stitchable last [] = last ∷ []
merge stitchable last (span ∷ spans) = elim (joins stitchable last span) [
  | true ↦ merge stitchable (joined last span) spans
  | false ↦ last ∷ merge stitchable span spans
]

merge_all : List String → List Span → List Span
unfolding merge
merge_all stitchable [] = []
merge_all stitchable (span ∷ spans) = merge stitchable span spans

-- A sort by start and then by end is a stable sort by end, and then one by start.
pub stitch_adjacent_spans : List String → List Span → List Span
unfolding merge_all
stitch_adjacent_spans stitchable spans =
    merge_all stitchable (sort (λ (s : Span). s.start) (sort (λ (s : Span). s.end) spans))

pub record Entity : Type 0 where
  pub entity_type : String
  pub value : List ℕ
  pub score : ℕ
  pub start : ℕ
  pub end : ℕ

-- `text[a:b]`
pub slice : ℕ → ℕ → List ℕ → List ℕ
slice a b text = drop a (take b text)

entity_at : List ℕ → Span → ℕ → Option (ℕ × ℕ) → Option (ℕ × ℕ) → Result SpanError Entity
unfolding slice
entity_at text s n none last = err (outside_offsets s.start s.end n)
entity_at text s n (some first) none = err (outside_offsets s.start s.end n)
entity_at text s n (some (char_start, x)) (some (y, char_end)) = ok (record {
  entity_type = s.entity_type;
  value = slice char_start char_end text;
  score = s.score;
  start = char_start;
  end = char_end;
})

-- A span of which an end is not a word is a ValueError, which carries the span and the number of words.
pub spans_to_entities : List Span → List (ℕ × ℕ) → List ℕ → Result SpanError (List Entity)
unfolding entity_at
spans_to_entities [] word_offsets text = ok []
spans_to_entities (s ∷ ss) word_offsets text = do
  entity ←
      entity_at text s (length word_offsets) (get_elem? word_offsets s.start)
        (get_elem? word_offsets s.end)
  rest ← spans_to_entities ss word_offsets text
  ok (entity ∷ rest)

-- What `GLiNEREngine` does with the answer of the model, for the `num_words` words that it saw of
-- the `words` of the text.
pub entities_of :
    List (List (List ℕ))
    → ℕ
    → Dict ℕ String
    → ℕ
    → Bool
    → List String
    → List (ℕ × ℕ)
    → List ℕ
    → Result SpanError (List Entity)
unfolding decode_spans stitch_adjacent_spans spans_to_entities
entities_of probs num_words id_to_class threshold flat_ner stitchable words text = do
  spans ← decode_spans probs num_words id_to_class threshold flat_ner false
  spans_to_entities (stitch_adjacent_spans stitchable spans) (take num_words words) text
