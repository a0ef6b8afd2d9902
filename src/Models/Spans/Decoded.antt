-- ===== src/Models/Spans/Decoded.antt =====
-- The decoder: when it raises, and what it returns.
use mathlib.Core.Path.{subst}
use mnemostroma.Prelude.{
  ℕ, suc, ◌+◌, ◌≤◌, ◌<◌, String, ◌≡◌, refl, ◌∙◌, sym, Bool, true, Option, none, some, List, [], ◌∷◌,
  arith, inl, inr, ◌⊎◌, ltb, get_elem?, select, nat_eq, All, All-append, Bool-cases, Option-cases,
}
use mnemostroma.Prelude.Dict.{Dict, get}
use mnemostroma.Prelude.Sort.{All-map, All-select}
use mnemostroma.Prelude.Result.{ok, err}
use mnemostroma.Models.Spans.{
  Span, Hit, hits_at, hits_from, hits, is_inside, SpanError, unknown_class, span_of, spans_of,
  decode_spans, greedy_search,
}
use mnemostroma.Models.Spans.Greedy.{All-greedy_search}

pub zero_plus : (k : ℕ) → 0 + k ≡ k
zero_plus k = omega arith

-- The cell of the array of probabilities.
abbrev pub cell_of : List (List (List ℕ)) → Hit → Option ℕ
cell_of probs h = elim (get_elem? probs h.start) [
  | none ↦ none
  | some plane ↦ elim (get_elem? plane h.width) [
    | none ↦ none
    | some row ↦ get_elem? row h.class_idx
  ]
]

-- A decoded span is a range of the words, and it comes from a cell above the threshold, with the
-- probability of the cell and the name of its class.
abbrev pub IsDecoded : List (List (List ℕ)) → ℕ → Dict ℕ String → ℕ → Span → Type 0
IsDecoded probs num_words id_to_class threshold s =
    (s.start ≤ s.end)
    × (s.end < num_words)
    × (threshold < s.score)
    × ((h : Hit) × (h.start ≡ s.start)
        × (h.start + h.width ≡ s.end)
        × (cell_of probs h ≡ some s.score)
        × (get id_to_class (h.class_idx + 1) ≡ some s.entity_type))

-- The hits of the array, each with its cell.
abbrev IsHit : List (List (List ℕ)) → ℕ → Hit → Type 0
IsHit probs threshold h = (threshold < h.score) × (cell_of probs h ≡ some h.score)

abbrev InRow : ℕ → ℕ → ℕ → ℕ → List ℕ → Hit → Type 0
InRow threshold start width i ps h =
    (h.start ≡ start)
    × (h.width ≡ width)
    × (threshold < h.score)
    × ((j : ℕ) × (h.class_idx ≡ i + j) × (get_elem? ps j ≡ some h.score))

hits_at-InRow :
    (threshold start width i : ℕ) (ps : List ℕ)
    → All (InRow threshold start width i ps) (hits_at threshold start width i ps)
unfolding hits_at
hits_at-InRow threshold start width i [] = tt
hits_at-InRow threshold start width i (p ∷ ps) =
    let later : All (InRow threshold start width i (p ∷ ps))
        (hits_at threshold start width (i + 1) ps) =
      All-map (hits_at threshold start width (i + 1) ps)
        (λ h (a, b, c, (j, e, g)). (a, b, c, (suc j, omega (arith, e), g)))
        (hits_at-InRow threshold start width (i + 1) ps) in
    elim (Bool-cases (ltb threshold p)) [
      | inl more ↦ rw more ((refl, refl, ground arith, (0, omega arith, refl)), later)
      | inr less ↦ rw less later
    ]

abbrev InPlane : ℕ → ℕ → ℕ → List (List ℕ) → Hit → Type 0
InPlane threshold start i rows h =
    (h.start ≡ start)
    × (threshold < h.score)
    × ((j : ℕ) × (row : List ℕ) × (h.width ≡ i + j)
        × (get_elem? rows j ≡ some row)
        × (get_elem? row h.class_idx ≡ some h.score))

hits_from-InPlane :
    (threshold start i : ℕ) (rows : List (List ℕ))
    → All (InPlane threshold start i rows) (hits_from threshold start i rows)
unfolding hits_from
hits_from-InPlane threshold start i [] = tt
hits_from-InPlane threshold start i (row ∷ rows) =
    All-append (InPlane threshold start i (row ∷ rows)) (hits_at threshold start i 0 row)
      (hits_from threshold start (i + 1) rows)
      (All-map (hits_at threshold start i 0 row)
        (λ h (a, b, c, (j, e, g)). (
          a,
          c,
          (
            0,
            row,
            omega (arith, b),
            refl,
            subst (λ k. get_elem? row k ≡ some h.score) (sym (e ∙ zero_plus j)) g,
          ),
        ))
        (hits_at-InRow threshold start i 0 row))
      (All-map (hits_from threshold start (i + 1) rows)
        (λ h (a, c, (j, r, e, f, g)). (a, c, (suc j, r, omega (arith, e), f, g)))
        (hits_from-InPlane threshold start (i + 1) rows))

abbrev InArray : ℕ → ℕ → List (List (List ℕ)) → Hit → Type 0
InArray threshold i planes h =
    (threshold < h.score)
    × ((j : ℕ) × (plane : List (List ℕ)) × (row : List ℕ) × (h.start ≡ i + j)
        × (get_elem? planes j ≡ some plane)
        × (get_elem? plane h.width ≡ some row)
        × (get_elem? row h.class_idx ≡ some h.score))

hits-InArray :
    (threshold i : ℕ) (planes : List (List (List ℕ)))
    → All (InArray threshold i planes) (hits threshold i planes)
unfolding hits
hits-InArray threshold i [] = tt
hits-InArray threshold i (plane ∷ planes) =
    All-append (InArray threshold i (plane ∷ planes)) (hits_from threshold i 0 plane)
      (hits threshold (i + 1) planes)
      (All-map (hits_from threshold i 0 plane)
        (λ h (a, c, (j, row, e, f, g)). (
          c,
          (
            0,
            plane,
            row,
            omega (arith, a),
            refl,
            subst (λ k. get_elem? plane k ≡ some row) (sym (e ∙ zero_plus j)) f,
            g,
          ),
        ))
        (hits_from-InPlane threshold i 0 plane))
      (All-map (hits threshold (i + 1) planes)
        (λ h (c, (j, p, r, e, f, g, k)). (c, (suc j, p, r, omega (arith, e), f, g, k)))
        (hits-InArray threshold (i + 1) planes))

hits-IsHit :
    (probs : List (List (List ℕ))) (threshold : ℕ)
    → All (IsHit probs threshold) (hits threshold 0 probs)
hits-IsHit probs threshold =
    All-map (hits threshold 0 probs)
      (λ h (c, (j, p, r, e, f, g, k)).
        let there : get_elem? probs h.start ≡ some p =
          subst (λ n. get_elem? probs n ≡ some p) (sym (e ∙ zero_plus j)) f in
        (c, ground (arith, there, g, k)))
      (hits-InArray threshold 0 probs)

module _ (probs : List (List (List ℕ))) (num_words : ℕ) (id_to_class : Dict ℕ String)
    (threshold : ℕ) where
  -- The class of a cell above the threshold, of a span of words, has no name.
  abbrev pub IsUnknown : SpanError → Hit → Type 0
  IsUnknown e h =
      (e ≡ unknown_class (h.class_idx + 1))
      × (get id_to_class (h.class_idx + 1) ≡ none)
      × (h.start + h.width < num_words)
      × ((p : ℕ) × (cell_of probs h ≡ some p) × (threshold < p))

  spans_of_lem :
      (hs : List Hit)
      → All (λ h. IsHit probs threshold h × (is_inside num_words h ≡ true)) hs
      → ((ss : List Span) × (spans_of id_to_class hs ≡ ok ss)
          × All (IsDecoded probs num_words id_to_class threshold) ss)
        ⊎ ((e : SpanError) × (h : Hit) × (spans_of id_to_class hs ≡ err e) × IsUnknown e h)
  unfolding spans_of span_of is_inside
  spans_of_lem [] w = inl ([], refl, tt)
  spans_of_lem (h ∷ hs) w = elim (Option-cases (get id_to_class (h.class_idx + 1))) [
    | inl missing ↦ inr (
      unknown_class (h.class_idx + 1),
      h,
      rw missing refl,
      (refl, missing, ground arith, (h.score, w.0.0.1, w.0.0.0)),
    )
    | inr (name, found) ↦ elim (spans_of_lem hs w.1) [
      | inl (ss, e, d) ↦ inl (
        record { start = h.start; end = h.start + h.width; entity_type = name; score = h.score }
            ∷ ss,
        rw found (rw e refl),
        ((omega arith, ground arith, w.0.0.0, (h, refl, refl, w.0.0.1, found)), d),
      )
      | inr (e, x, f, u) ↦ inr (e, x, rw found (rw f refl), u)
    ]
  ]

  -- The decoder raises only for a cell above the threshold, of a span within the words, whose class
  -- has no name. Otherwise every span that it returns is a range within the words, and comes from a
  -- cell above the threshold, with the probability of that cell and the name of its class.
  pub decode_spans_lem :
      (flat multi : Bool)
      → ((ss : List Span) × (decode_spans probs num_words id_to_class threshold flat multi ≡ ok ss)
          × All (IsDecoded probs num_words id_to_class threshold) ss)
        ⊎ ((e : SpanError) × (h : Hit) × (decode_spans probs num_words id_to_class threshold flat
                multi
              ≡ err e)
            × IsUnknown e h)
  unfolding decode_spans
  decode_spans_lem flat multi =
      elim (spans_of_lem (select (is_inside num_words) (hits threshold 0 probs)) (
        All-select (IsHit probs threshold) (is_inside num_words) (hits threshold 0 probs)
          (hits-IsHit probs threshold))) [
            | inl (ss, e, d) ↦ inl (
              greedy_search flat multi ss,
              rw e refl,
              All-greedy_search flat multi ss (IsDecoded probs num_words id_to_class threshold) d,
            )
            | inr (e, h, f, u) ↦ inr (e, h, rw f refl, u)
          ]
