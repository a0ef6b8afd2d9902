-- ===== src/Models/Spans/Kept.antt =====
-- What the loop of the greedy search keeps, for any test of two spans.
use mnemostroma.Prelude.{
  ℕ, ◌≤◌, ◌≡◌, refl, ◌∙◌, Bool, true, false, List, [], ◌∷◌, ◌++◌, arith, inl, inr, ◌⊎◌,
  if◌then◌else◌, any, All, All-append, Bool-cases,
}
use mnemostroma.Prelude.Sort.{All-map}
use mnemostroma.Prelude.SortDown.{
  Any, Any-append_left, Any-map, Any-append_right, IsSortedDown, Pairwise, Pairwise-snoc,
}
use mnemostroma.Models.Spans.{Span, keep}

-- A span is accounted for: it is kept, or it clashes with a kept one that scores no less.
abbrev pub IsCovered : (Span → Span → Bool) → Span → Span → Type 0
IsCovered clash s k = (k ≡ s) ⊎ ((clash s k ≡ true) × (s.score ≤ k.score))

any-Any :
    (p : Span → Bool) (n : ℕ) (ks : List Span)
    → any p ks ≡ true
    → All (λ k. n ≤ k.score) ks
    → Any (λ k. (p k ≡ true) × (n ≤ k.score)) ks
any-Any p n [] h b = cc
any-Any p n (k ∷ ks) h b = elim (Bool-cases (p k)) [
  | inl e ↦ inl (e, b.0)
  | inr e ↦ inr (any-Any p n ks (ground arith) b.1)
]

none-All : (p : Span → Bool) (ks : List Span) → any p ks ≡ false → All (λ k. p k ≡ false) ks
none-All p [] h = tt
none-All p (k ∷ ks) h = (ground arith, none-All p ks (ground arith))

module _ (clash : Span → Span → Bool) where
  -- The step of the loop.
  abbrev pub kept_with : List Span → Span → List Span
  kept_with kept s = if any (clash s) kept then kept else kept ++ s ∷ []

  Any-kept_with :
      (P : Span → Type 0) (kept : List Span) (s : Span) → Any P kept → Any P (kept_with kept s)
  Any-kept_with P kept s h = elim (Bool-cases (any (clash s) kept)) [
    | inl e ↦ rw e h
    | inr e ↦ rw e (Any-append_left P kept (s ∷ []) h)
  ]

  Any-keep : (P : Span → Type 0) (kept ss : List Span) → Any P kept → Any P (keep clash kept ss)
  unfolding keep
  Any-keep P kept [] h = h
  Any-keep P kept (s ∷ ss) h = Any-keep P (kept_with kept s) ss (Any-kept_with P kept s h)

  All-kept_with :
      (P : Span → Type 0) (kept : List Span) (s : Span)
      → P s
      → All P kept
      → All P (kept_with kept s)
  All-kept_with P kept s p h = elim (Bool-cases (any (clash s) kept)) [
    | inl e ↦ rw e h
    | inr e ↦ rw e (All-append P kept (s ∷ []) h (p, tt))
  ]

  pub All-keep :
      (P : Span → Type 0) (kept ss : List Span) → All P kept → All P ss → All P (keep clash kept ss)
  unfolding keep
  All-keep P kept [] h k = h
  All-keep P kept (s ∷ ss) h k = All-keep P (kept_with kept s) ss (All-kept_with P kept s k.0 h) k.1

  IsCovered-now :
      (kept : List Span) (s : Span)
      → All (λ k. s.score ≤ k.score) kept
      → Any (IsCovered clash s) (kept_with kept s)
  IsCovered-now kept s h = elim (Bool-cases (any (clash s) kept)) [
    | inl e ↦ rw e (Any-map kept (λ k p. inr p) (any-Any (clash s) s.score kept e h))
    | inr e ↦ rw e (Any-append_right (IsCovered clash s) kept (s ∷ []) (inl (inl refl)))
  ]

  pub keep_covers :
      (kept ss : List Span)
      → IsSortedDown (λ (s : Span). s.score) ss
      → All (λ s. All (λ k. s.score ≤ k.score) kept) ss
      → All (λ s. Any (IsCovered clash s) (keep clash kept ss)) ss
  unfolding keep
  keep_covers kept [] d h = tt
  keep_covers kept (s ∷ ss) d h = (
    Any-keep (IsCovered clash s) (kept_with kept s) ss (IsCovered-now kept s h.0),
    keep_covers (kept_with kept s) ss d.1 (above ss d.0 h.1),
  )
    where
      above :
          (ts : List Span)
          → All (λ t. t.score ≤ s.score) ts
          → All (λ t. All (λ k. t.score ≤ k.score) kept) ts
          → All (λ t. All (λ k. t.score ≤ k.score) (kept_with kept s)) ts
      above [] a b = tt
      above (t ∷ ts) a b = (All-kept_with (λ k. t.score ≤ k.score) kept s a.0 b.0, above ts a.1 b.1)

  module _ (symm : (a b : Span) → clash a b ≡ clash b a) where
    abbrev pub Together : Span → Span → Type 0
    Together a b = clash a b ≡ false

    kept_with-Pairwise :
        (kept : List Span) (s : Span)
        → Pairwise Together kept
        → Pairwise Together (kept_with kept s)
    kept_with-Pairwise kept s h = elim (Bool-cases (any (clash s) kept)) [
      | inl e ↦ rw e h
      | inr e ↦ rw e (
          Pairwise-snoc Together kept s h
            (All-map kept (λ k p. symm k s ∙ p) (none-All (clash s) kept e)))
    ]

    pub keep-Pairwise :
        (kept ss : List Span) → Pairwise Together kept → Pairwise Together (keep clash kept ss)
    unfolding keep
    keep-Pairwise kept [] h = h
    keep-Pairwise kept (s ∷ ss) h =
        keep-Pairwise (kept_with kept s) ss (kept_with-Pairwise kept s h)
