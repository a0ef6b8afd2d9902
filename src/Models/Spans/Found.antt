-- ===== src/Models/Spans/Found.antt =====
-- The decoder misses no cell above the threshold.
use mathlib.Core.Path.{subst}
use mnemostroma.Prelude.{
  ℕ, zero, suc, ◌+◌, ◌<◌, ◌≡◌, sym, ap, Bool, true, some, List, [], ◌∷◌, arith, ltb, get_elem?,
  select, String, nat_eq, All, inl, inr, Bool-cases, Option-cases,
}
use mnemostroma.Prelude.Dict.{Dict, get}
use mnemostroma.Prelude.Result.{ok, Result-cases}
use mnemostroma.Prelude.SortDown.{Any, Any-All, Any-append_left, Any-append_right}
use mnemostroma.Models.Spans.{
  Span, Hit, hits_at, hits_from, hits, is_inside, span_of, spans_of, greedy_search, decode_spans,
}
use mnemostroma.Models.Spans.Decoded.{zero_plus, cell_of}
use mnemostroma.Models.Spans.Greedy.{IsSpan, IsSettled, greedy_search_lem}

plus_suc : (m n : ℕ) → m + 1 + n ≡ m + suc n
plus_suc m n = omega arith

abbrev hit : ℕ → ℕ → ℕ → ℕ → Hit
hit start width class_idx score = record {
  start = start;
  width = width;
  class_idx = class_idx;
  score = score;
}

module _ (threshold score : ℕ) (above : threshold < score) where
  hits_at_finds :
      (start width i : ℕ) (ps : List ℕ) (j : ℕ)
      → get_elem? ps j ≡ some score
      → Any (λ h. h ≡ hit start width (i + j) score) (hits_at threshold start width i ps)
  unfolding hits_at
  hits_at_finds start width i [] j e = cc
  hits_at_finds start width i (p ∷ ps) zero e =
      let more : ltb threshold p ≡ true = ground arith in rw more (inl (ground arith))
  hits_at_finds start width i (p ∷ ps) (suc j) e =
      let there : Any (λ h. h ≡ hit start width (i + suc j) score)
          (hits_at threshold start width (i + 1) ps) =
        subst
          (λ n. Any (λ h. h ≡ hit start width n score) (hits_at threshold start width (i + 1) ps))
          (omega arith) (hits_at_finds start width (i + 1) ps j e) in
      elim (Bool-cases (ltb threshold p)) [
        | inl more ↦ rw more (inr there)
        | inr less ↦ rw less there
      ]

  hits_from_finds :
      (start i : ℕ) (rows : List (List ℕ)) (j class_idx : ℕ) (row : List ℕ)
      → get_elem? rows j ≡ some row
      → get_elem? row class_idx ≡ some score
      → Any (λ h. h ≡ hit start (i + j) class_idx score) (hits_from threshold start i rows)
  unfolding hits_from
  hits_from_finds start i [] j class_idx row e f = cc
  hits_from_finds start i (r ∷ rows) zero class_idx row e f =
      let same : get_elem? r class_idx ≡ some score = ground arith in
      Any-append_left _ (hits_at threshold start i 0 r) (hits_from threshold start (i + 1) rows) (
        subst (λ n. Any (λ h. h ≡ hit start (i + 0) n score) (hits_at threshold start i 0 r))
          (zero_plus class_idx)
          (subst
            (λ n. Any (λ h. h ≡ hit start n (0 + class_idx) score) (hits_at threshold start i 0 r))
            (omega arith) (hits_at_finds start i 0 r class_idx same)))
  hits_from_finds start i (r ∷ rows) (suc j) class_idx row e f =
      Any-append_right _ (hits_at threshold start i 0 r) (hits_from threshold start (i + 1) rows) (
        subst
          (λ n. Any (λ h. h ≡ hit start n class_idx score) (hits_from threshold start (i + 1) rows))
          (plus_suc i j) (hits_from_finds start (i + 1) rows j class_idx row e f))

  hits_find :
      (i : ℕ) (planes : List (List (List ℕ))) (j width class_idx : ℕ) (plane : List (List ℕ))
      (row : List ℕ)
      → get_elem? planes j ≡ some plane
      → get_elem? plane width ≡ some row
      → get_elem? row class_idx ≡ some score
      → Any (λ h. h ≡ hit (i + j) width class_idx score) (hits threshold i planes)
  unfolding hits
  hits_find i [] j width class_idx plane row e f g = cc
  hits_find i (p ∷ planes) zero width class_idx plane row e f g =
      let same : get_elem? p width ≡ some row = ground arith in
      Any-append_left _ (hits_from threshold i 0 p) (hits threshold (i + 1) planes) (
        subst (λ n. Any (λ h. h ≡ hit (i + 0) n class_idx score) (hits_from threshold i 0 p))
          (zero_plus width)
          (subst (λ n. Any (λ h. h ≡ hit n (0 + width) class_idx score) (hits_from threshold i 0 p))
            (omega arith) (hits_from_finds i 0 p width class_idx row same g)))
  hits_find i (p ∷ planes) (suc j) width class_idx plane row e f g =
      Any-append_right _ (hits_from threshold i 0 p) (hits threshold (i + 1) planes) (
        subst (λ n. Any (λ h. h ≡ hit n width class_idx score) (hits threshold (i + 1) planes))
          (plus_suc i j) (hits_find (i + 1) planes j width class_idx plane row e f g))

hits-cell_of :
    (probs : List (List (List ℕ))) (threshold : ℕ) (h : Hit)
    → cell_of probs h ≡ some h.score
    → threshold < h.score
    → Any (λ x. x ≡ h) (hits threshold 0 probs)
hits-cell_of probs threshold h e above = elim (Option-cases (get_elem? probs h.start)) [
  | inl gone ↦ absurd (ground (arith, gone))
  | inr (plane, p) ↦ elim (Option-cases (get_elem? plane h.width)) [
    | inl gone ↦ absurd (ground (arith, p, gone))
    | inr (row, r) ↦
        let last : get_elem? row h.class_idx ≡ some h.score = ground (arith, p, r) in
        subst (λ n. Any (λ x. x ≡ hit n h.width h.class_idx h.score) (hits threshold 0 probs))
          (zero_plus h.start)
          (hits_find threshold h.score above 0 probs h.start h.width h.class_idx plane row p r last)
  ]
]

Any-select :
    {P : Hit → Type 0} (p : Hit → Bool) (hs : List Hit)
    → ((h : Hit) → P h → p h ≡ true)
    → Any P hs
    → Any P (select p hs)
Any-select p [] f k = elim k [ ]
Any-select p (h ∷ hs) f (inl q) = rw (f h q) (inl q)
Any-select p (h ∷ hs) f (inr k) = elim (Bool-cases (p h)) [
  | inl e ↦ rw e (inr (Any-select p hs f k))
  | inr e ↦ rw e (Any-select p hs f k)
]

abbrev pub span_named : Hit → String → Span
span_named h name = record {
  start = h.start;
  end = h.start + h.width;
  entity_type = name;
  score = h.score;
}

spans_of_finds :
    (id_to_class : Dict ℕ String) (hs : List Hit) (ss : List Span) (h : Hit)
    → spans_of id_to_class hs ≡ ok ss
    → Any (λ x. x ≡ h) hs
    → (name : String) × (get id_to_class (h.class_idx + 1) ≡ some name)
      × Any (λ s. s ≡ span_named h name) ss
unfolding spans_of span_of
spans_of_finds id_to_class [] ss h e k = elim k [ ]
spans_of_finds id_to_class (x ∷ hs) ss h e k =
    elim (Option-cases (get id_to_class (x.class_idx + 1))) [
      | inl missing ↦ absurd (ground (arith, missing))
      | inr (name, found) ↦ elim (Result-cases (spans_of id_to_class hs)) [
        | inr (f, failed) ↦ absurd (ground (arith, found, failed))
        | inl (rest, done) ↦
            let all_spans : (span_named x name ∷ rest) ≡ ss = ground (arith, found, done) in
            elim k [
              | inl same ↦ (
                name,
                subst (λ (y : Hit). get id_to_class (y.class_idx + 1) ≡ some name) same found,
                subst (λ l. Any (λ s. s ≡ span_named h name) l) all_spans
                    (inl (ap (λ y. span_named y name) same)),
              )
              | inr k' ↦
                  let (n, g, a) = spans_of_finds id_to_class hs rest h done k' in
                  (n, g, subst (λ l. Any (λ s. s ≡ span_named h n) l) all_spans (inr a))
            ]
      ]
    ]

spans_of-IsSpan :
    (id_to_class : Dict ℕ String) (hs : List Hit) (ss : List Span)
    → spans_of id_to_class hs ≡ ok ss
    → All IsSpan ss
unfolding spans_of span_of
spans_of-IsSpan id_to_class [] ss e =
    let none' : ◌≡◌ {A = List Span} [] ss = ground arith in subst (All IsSpan) none' tt
spans_of-IsSpan id_to_class (x ∷ hs) ss e =
    elim (Option-cases (get id_to_class (x.class_idx + 1))) [
      | inl missing ↦ absurd (ground (arith, missing))
      | inr (name, found) ↦ elim (Result-cases (spans_of id_to_class hs)) [
        | inr (f, failed) ↦ absurd (ground (arith, found, failed))
        | inl (rest, done) ↦
            let all_spans : (span_named x name ∷ rest) ≡ ss = ground (arith, found, done) in
            subst (All IsSpan) all_spans (omega arith, spans_of-IsSpan id_to_class hs rest done)
      ]
    ]

-- No cell above the threshold is lost: where the decoder returns spans, the class of every such cell
-- of a span within the words has a name, and its span is among the returned ones, or cannot stand
-- together with one of them whose score is no lower.
pub decode_spans_complete :
    (probs : List (List (List ℕ))) (num_words : ℕ) (id_to_class : Dict ℕ String) (threshold : ℕ)
    (flat multi : Bool) (ss : List Span) (h : Hit)
    → decode_spans probs num_words id_to_class threshold flat multi ≡ ok ss
    → cell_of probs h ≡ some h.score
    → threshold < h.score
    → h.start + h.width < num_words
    → (name : String) × (get id_to_class (h.class_idx + 1) ≡ some name)
      × IsSettled flat multi ss (span_named h name)
unfolding decode_spans is_inside
decode_spans_complete probs num_words id_to_class threshold flat multi ss h e c above within =
    let inside = select (is_inside num_words) (hits threshold 0 probs) in
    let found : Any (λ x. x ≡ h) inside =
      Any-select (is_inside num_words) (hits threshold 0 probs)
        (λ x s. subst (λ y. is_inside num_words y ≡ true) (sym s) (ground arith))
        (hits-cell_of probs threshold h c above) in
    elim (Result-cases (spans_of id_to_class inside)) [
      | inr (f, failed) ↦ absurd (ground (arith, failed))
      | inl (all_spans, done) ↦
          let (name, g, a) = spans_of_finds id_to_class inside all_spans h done found in
          let ends : greedy_search flat multi all_spans ≡ ss = ground (arith, done) in
          let (s, k, same) =
            Any-All all_spans
              (greedy_search_lem flat multi all_spans
                (spans_of-IsSpan id_to_class inside all_spans done)).3
              a in
          (
            name,
            g,
            subst (λ l. IsSettled flat multi l (span_named h name)) ends
                (subst (IsSettled flat multi (greedy_search flat multi all_spans)) same k),
          )
    ]
