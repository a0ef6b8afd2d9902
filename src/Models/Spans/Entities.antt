-- ===== src/Models/Spans/Entities.antt =====
-- From the model's answer to entities: the offsets of the words always suffice.
use mnemostroma.Prelude.{
  ℕ, zero, suc, ◌≤◌, ◌<◌, String, ◌≡◌, refl, Bool, false, some, List, [], ◌∷◌, arith, nat_eq,
  length, length-take, take, get_elem?, All, inl, inr, ◌⊎◌,
}
use mnemostroma.Prelude.Dict.{Dict}
use mnemostroma.Prelude.Sort.{All-map}
use mnemostroma.Prelude.Result.{ok, err}
use mnemostroma.Models.Spans.{
  Span, Hit, stitch_adjacent_spans, SpanError, Entity, slice, entity_at, spans_to_entities,
  entities_of,
}
use mnemostroma.Models.Spans.Decoded.{IsUnknown, decode_spans_lem}
use mnemostroma.Models.Spans.Stitched.{IsStitched, IsWithinWords, stitch_adjacent_spans_lem}

-- The entities are those of the spans, in order: each has the type and the score of its span, and
-- the text from the start of its first word to the end of its last one.
abbrev pub AreEntities : List (ℕ × ℕ) → List ℕ → List Span → List Entity → Type 0
AreEntities word_offsets text [] [] = Unit
AreEntities word_offsets text [] (e ∷ es) = ⊥
AreEntities word_offsets text (s ∷ ss) [] = ⊥
AreEntities word_offsets text (s ∷ ss) (e ∷ es) =
    ((e.entity_type ≡ s.entity_type)
      × (e.score ≡ s.score)
      × (e.value ≡ slice e.start e.end text)
      × ((x : ℕ) × (get_elem? word_offsets s.start ≡ some (e.start, x)))
      × ((y : ℕ) × (get_elem? word_offsets s.end ≡ some (y, e.end))))
    × AreEntities word_offsets text ss es

get_elem?-lt {ℓ} :
    {A : Type ℓ} (xs : List A) (i : ℕ) → i < length xs → (x : A) × (get_elem? xs i ≡ some x)
get_elem?-lt [] i h = absurd (omega arith)
get_elem?-lt (x ∷ xs) zero h = (x, refl)
get_elem?-lt (x ∷ xs) (suc i) h = get_elem?-lt xs i (omega arith)

spans_to_entities_total :
    (ss : List Span) (word_offsets : List (ℕ × ℕ)) (text : List ℕ)
    → All (IsWithinWords (length word_offsets)) ss
    → (es : List Entity) × (spans_to_entities ss word_offsets text ≡ ok es)
      × AreEntities word_offsets text ss es
unfolding spans_to_entities entity_at
spans_to_entities_total [] word_offsets text h = ([], refl, tt)
spans_to_entities_total (s ∷ ss) word_offsets text h =
    let ((a, x), first) = get_elem?-lt word_offsets s.start (omega (arith, h.0)) in
    let ((y, b), last) = get_elem?-lt word_offsets s.end (omega (arith, h.0)) in
    let (es, e, m) = spans_to_entities_total ss word_offsets text h.1 in
    (
      record {
        entity_type = s.entity_type;
        value = slice a b text;
        score = s.score;
        start = a;
        end = b;
      }
          ∷ es,
      rw (first, last, e) refl,
      ((refl, refl, refl, (x, first), (y, last)), m),
    )

module _ (probs : List (List (List ℕ))) (num_words : ℕ) (id_to_class : Dict ℕ String)
    (threshold : ℕ) where
  -- From the answer of a model that saw no more words than the text has, either a class without a name
  -- raises; or the entities of some spans are returned, none of which lies outside the words, and no two
  -- neighbours of which could be joined. The error for a span outside the offsets never occurs.
  pub entities_of_lem :
      (flat : Bool) (stitchable : List String) (words : List (ℕ × ℕ)) (text : List ℕ)
      → num_words ≤ length words
      → ((ss : List Span) × (es : List Entity) × (entities_of probs num_words id_to_class threshold
              flat stitchable words text
            ≡ ok es)
          × All (IsWithinWords num_words) ss
          × IsStitched stitchable ss
          × AreEntities (take num_words words) text ss es)
        ⊎ ((e : SpanError) × (h : Hit) × (entities_of probs num_words id_to_class threshold flat
                stitchable words text
              ≡ err e)
            × IsUnknown probs num_words id_to_class threshold e h)
  unfolding entities_of
  entities_of_lem flat stitchable words text enough =
      elim (decode_spans_lem probs num_words id_to_class threshold flat false) [
        | inr (e, h, f, u) ↦ inr (e, h, rw f refl, u)
        | inl (ss, e, d) ↦
            let (stitched, w, inside) =
              stitch_adjacent_spans_lem stitchable num_words ss
                (All-map ss (λ s k. (k.0, k.1)) d) in
            let fits : length (take num_words words) ≡ num_words =
              omega (arith, length-take num_words words) in
            let (es, f, m) =
              spans_to_entities_total (stitch_adjacent_spans stitchable ss) (take num_words words)
                text (rw fits inside) in
            inl (stitch_adjacent_spans stitchable ss, es, rw e f, inside, stitched, m)
      ]
