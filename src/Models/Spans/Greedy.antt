-- ===== src/Models/Spans/Greedy.antt =====
-- What the greedy search keeps: spans that do not clash, and all that do not clash with a better one.
use mnemostroma.Prelude.{
  ℕ, ◌≤◌, ◌<◌, ◌≡◌, sym, Bool, true, false, List, [], ◌∷◌, arith, inl, inr, ◌⊎◌, All,
}
use mnemostroma.Prelude.Sort.{sort, All-sort, All-map, IsSorted, sort-IsSorted}
use mnemostroma.Prelude.SortDown.{
  Any, members, All-unsort_down, All-both, Any-sort, sort_down, All-sort_down,
  sort_down-IsSortedDown, Pairwise, Pairwise-sort,
}
use mnemostroma.Models.Spans.Kept.{IsCovered, keep_covers, keep-Pairwise, All-keep}
use mnemostroma.Models.Spans.{Span, conflicts, keep, greedy_search}

-- The spans can stand together: they share no word; or they are one range, and a range may carry
-- several types; or nesting is allowed and one of two different ranges holds the other.
abbrev pub IsApart : Span → Span → Type 0
IsApart a b = (b.end < a.start) ⊎ (a.end < b.start)

abbrev pub IsSameRange : Span → Span → Type 0
IsSameRange a b = (a.start ≡ b.start) × (a.end ≡ b.end)

abbrev pub IsWithin : Span → Span → Type 0
IsWithin a b = (b.start ≤ a.start) × (a.end ≤ b.end)

abbrev pub IsCompatible : Bool → Bool → Span → Span → Type 0
IsCompatible flat_ner multi_label a b =
    IsApart a b
    ⊎ (IsSameRange a b × (multi_label ≡ true))
    ⊎ ((flat_ner ≡ false) × (¬ IsSameRange a b) × (IsWithin a b ⊎ IsWithin b a))

conflicts-IsCompatible :
    (flat multi : Bool) (a b : Span)
    → conflicts flat multi a b ≡ false
    → IsCompatible flat multi a b
unfolding conflicts
conflicts-IsCompatible true true a b h = ground arith
conflicts-IsCompatible true false a b h = ground arith
conflicts-IsCompatible false true a b h = ground arith
conflicts-IsCompatible false false a b h = ground arith

conflicts_symm :
    (flat multi : Bool) (a b : Span) → conflicts flat multi a b ≡ conflicts flat multi b a
unfolding conflicts
conflicts_symm true true a b = ground arith
conflicts_symm true false a b = ground arith
conflicts_symm false true a b = ground arith
conflicts_symm false false a b = ground arith

-- A range of words.
abbrev pub IsSpan : Span → Type 0
IsSpan s = s.start ≤ s.end

conflicts-ne-IsCompatible :
    (flat multi : Bool) (a b : Span)
    → IsSpan a
    → IsSpan b
    → conflicts flat multi a b ≡ true
    → ¬ IsCompatible flat multi a b
unfolding conflicts
conflicts-ne-IsCompatible true true a b ha hb h k = ground arith
conflicts-ne-IsCompatible true false a b ha hb h k = ground arith
conflicts-ne-IsCompatible false true a b ha hb h k = ground arith
conflicts-ne-IsCompatible false false a b ha hb h k = ground arith

-- The span is kept, or it cannot stand together with a kept one that scores no less.
abbrev pub IsSettled : Bool → Bool → List Span → Span → Type 0
IsSettled flat multi kept s =
    Any (λ k. (k ≡ s) ⊎ ((¬ IsCompatible flat multi s k) × (s.score ≤ k.score))) kept

settled :
    (flat multi : Bool) (kept : List Span) (s : Span)
    → IsSpan s
    → All IsSpan kept
    → Any (IsCovered (conflicts flat multi) s) kept
    → IsSettled flat multi kept s
settled flat multi [] s hs h k = k
settled flat multi (x ∷ xs) s hs h (inl (inl e)) = inl (inl e)
settled flat multi (x ∷ xs) s hs h (inl (inr (c, l))) =
    inl (inr (conflicts-ne-IsCompatible flat multi s x hs h.0 c, l))
settled flat multi (x ∷ xs) s hs h (inr k) = inr (settled flat multi xs s hs h.1 k)

Pairwise-map :
    {R S : Span → Span → Type 0} (ks : List Span)
    → ((a b : Span) → R a b → S a b)
    → Pairwise R ks
    → Pairwise S ks
Pairwise-map [] f h = tt
Pairwise-map (k ∷ ks) f h = (All-map ks (λ x r. f k x r) h.0, Pairwise-map ks f h.1)

none_kept : (ss : List Span) → All (λ (s : Span). All (λ (k : Span). s.score ≤ k.score) []) ss
none_kept [] = tt
none_kept (s ∷ ss) = (tt, none_kept ss)

IsCompatible-symm :
    (flat multi : Bool) (a b : Span) → IsCompatible flat multi a b → IsCompatible flat multi b a
IsCompatible-symm flat multi a b (inl (inl h)) = inl (inr h)
IsCompatible-symm flat multi a b (inl (inr h)) = inl (inl h)
IsCompatible-symm flat multi a b (inr (inl (r, m))) = inr (inl ((sym r.0, sym r.1), m))
IsCompatible-symm flat multi a b (inr (inr (f, n, inl h))) =
    inr (inr (f, (λ r. n (sym r.0, sym r.1)), inr h))
IsCompatible-symm flat multi a b (inr (inr (f, n, inr h))) =
    inr (inr (f, (λ r. n (sym r.0, sym r.1)), inl h))

module _ (flat multi : Bool) (spans : List Span) where
  abbrev best_first : List Span
  best_first = sort_down (λ (s : Span). s.score) spans

  abbrev kept_spans : List Span
  kept_spans = keep (conflicts flat multi) [] best_first

  kept_spans-IsSettled :
      All IsSpan spans → All (IsSettled flat multi (greedy_search flat multi spans)) spans
  unfolding greedy_search
  kept_spans-IsSettled w =
      let start : Span → ℕ = λ s. s.start in
      let wk : All IsSpan kept_spans =
        All-keep (conflicts flat multi) IsSpan [] best_first tt
          (All-sort_down IsSpan (λ (s : Span). s.score) spans w) in
      let covered : All (λ s. IsSpan s × Any (IsCovered (conflicts flat multi) s) kept_spans)
          best_first =
        All-both IsSpan (λ s. Any (IsCovered (conflicts flat multi) s) kept_spans) best_first
          (All-sort_down IsSpan (λ (s : Span). s.score) spans w)
          (keep_covers (conflicts flat multi) [] best_first
            (sort_down-IsSortedDown (λ (s : Span). s.score) spans) (none_kept best_first)) in
      All-unsort_down (IsSettled flat multi (sort start kept_spans)) (λ (s : Span). s.score) spans
        (All-map best_first
          (λ s h. Any-sort _ start kept_spans (settled flat multi kept_spans s h.0 wk h.1)) covered)

  kept_spans-IsCompatible : Pairwise (IsCompatible flat multi) (greedy_search flat multi spans)
  unfolding greedy_search
  kept_spans-IsCompatible =
      Pairwise-sort (IsCompatible flat multi) (IsCompatible-symm flat multi) (λ (s : Span). s.start)
        kept_spans
        (Pairwise-map kept_spans (conflicts-IsCompatible flat multi)
          (keep-Pairwise (conflicts flat multi) (conflicts_symm flat multi) [] best_first tt))

  -- Whatever all spans satisfy, the kept ones do.
  pub All-greedy_search : (P : Span → Type 0) → All P spans → All P (greedy_search flat multi spans)
  unfolding greedy_search
  All-greedy_search P h =
      All-sort P (λ (s : Span). s.start) kept_spans
        (All-keep (conflicts flat multi) P [] best_first tt
          (All-sort_down P (λ (s : Span). s.score) spans h))

-- Of spans that are ranges of words, the greedy search keeps some, in the order of their starts. Any
-- two of them can stand together: they share no word, or are one range that carries several types
-- where that is allowed, or one of two different ranges holds the other where nesting is allowed.
-- Every span that is not kept cannot stand together with a kept one whose score is no lower.
pub greedy_search_lem :
    (flat multi : Bool) (spans : List Span)
    → All IsSpan spans
    → All (λ k. Any (λ s. s ≡ k) spans) (greedy_search flat multi spans)
      × IsSorted (λ (s : Span). s.start) (greedy_search flat multi spans)
      × Pairwise (IsCompatible flat multi) (greedy_search flat multi spans)
      × All (IsSettled flat multi (greedy_search flat multi spans)) spans
unfolding greedy_search
greedy_search_lem flat multi spans w = (
  All-greedy_search flat multi spans _ (members spans),
  sort-IsSorted (λ (s : Span). s.start) (kept_spans flat multi spans),
  kept_spans-IsCompatible flat multi spans,
  kept_spans-IsSettled flat multi spans w,
)
