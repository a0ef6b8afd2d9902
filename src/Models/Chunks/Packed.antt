-- ===== src/Models/Chunks/Packed.antt =====
-- What the packing of atoms into chunks keeps, and how large a chunk is.
use mathlib.Core.Path.{subst}
use mathlib.Core.List.{append_assoc, append-nil}
use mnemostroma.Prelude.{
  ℕ, suc, ◌+◌, ◌≤◌, ◌≡◌, refl, ◌∙◌, sym, ap, false, not, ◌&&◌, List, [], ◌∷◌, ◌++◌, arith, ◌=ℕ◌,
  ltb, length, length-append, Bool-cases, inl, inr, ◌⊎◌,
}
use mnemostroma.Prelude.SortDown.{reverse}
use mnemostroma.Models.Chunks.{is_empty, tokens, tail_from, tail_for_overlap, pack}

module _ {ℓ} {A : Type ℓ} (count : A → ℕ) where
  tokens-append : (as' bs : List A) → tokens count (as' ++ bs) ≡ tokens count as' + tokens count bs
  tokens-append [] bs = omega arith
  tokens-append (a ∷ as') bs = omega (arith, tokens-append as' bs)

  -- What is repeated of a chunk: a part of its end, never the whole chunk, that fits the overlap or is
  -- one atom.
  abbrev pub IsCarry : ℕ → List A → List A → Type ℓ
  IsCarry overlap prev carry =
      ((dropped : List A) × (prev ≡ dropped ++ carry) × ((carry ≡ []) ⊎ (1 ≤ length dropped)))
      × ((tokens count carry ≤ overlap) ⊎ (length carry ≤ 1))

  tail_from_lem :
      (overlap : ℕ) (before tail : List A) (total : ℕ)
      → total ≡ tokens count tail
      → (tokens count tail ≤ overlap) ⊎ (length tail ≤ 1)
      → ((dropped : List A) × (reverse before ++ tail
            ≡ dropped ++ tail_from count overlap before tail total))
        × ((tokens count (tail_from count overlap before tail total) ≤ overlap)
            ⊎ (length (tail_from count overlap before tail total) ≤ 1))
  unfolding tail_from
  tail_from_lem overlap [] tail total e b = (([], refl), b)
  tail_from_lem overlap (a ∷ before) tail total e b =
      elim (Bool-cases (ltb overlap (total + count a) && not (is_empty tail))) [
        | inl stop ↦ rw (stop, tail_from) ((reverse (a ∷ before), refl), b)
        | inr go ↦
            let ((dropped, f), c) =
              tail_from_lem overlap before (a ∷ tail) (total + count a) (omega (arith, e))
                (fits tail b e go) in
            rw (go, tail_from) ((dropped, append_assoc (reverse before) (a ∷ []) tail ∙ f), c)
      ]
    where
      fits :
          (t : List A)
          → (tokens count t ≤ overlap) ⊎ (length t ≤ 1)
          → total ≡ tokens count t
          → (ltb overlap (total + count a) && not (is_empty t)) ≡ false
          → (count a + tokens count t ≤ overlap) ⊎ (suc (length t) ≤ 1)
      fits [] k q g = inr (omega arith)
      fits (x ∷ t) k q g = inl (ground (arith, q))

  reverse_append-reverse : (as' bs : List A) → reverse (as' ++ bs) ≡ reverse bs ++ reverse as'
  reverse_append-reverse [] bs = sym (append-nil (reverse bs))
  reverse_append-reverse (a ∷ as') bs =
      ap (λ r. r ++ a ∷ []) (reverse_append-reverse as' bs)
      ∙ append_assoc (reverse bs) (reverse as') (a ∷ [])

  reverse-reverse : (as' : List A) → reverse (reverse as') ≡ as'
  reverse-reverse [] = refl
  reverse-reverse (a ∷ as') =
      reverse_append-reverse (reverse as') (a ∷ []) ∙ ap (λ r. a ∷ r) (reverse-reverse as')

  tail_for_overlap-IsCarry :
      (overlap : ℕ) (chunk : List A) → IsCarry overlap chunk (tail_for_overlap count overlap chunk)
  unfolding tail_for_overlap
  tail_for_overlap-IsCarry overlap chunk =
      let ((dropped, e), b) = tail_from_lem overlap (reverse chunk) [] 0 refl (inl (omega arith)) in
      let tail = tail_from count overlap (reverse chunk) [] 0 in
      let whole : chunk ≡ dropped ++ tail =
        sym (append-nil (reverse (reverse chunk)) ∙ reverse-reverse chunk) ∙ e in
      let size : length chunk ≡ length dropped + length tail =
        ap length whole ∙ length-append dropped tail in
      let nothing : IsCarry overlap chunk [] =
        ((chunk, sym (append-nil chunk), inl refl), inl (omega arith)) in
      elim (Bool-cases (ltb 0 overlap)) [
        | inr never ↦ rw never nothing
        | inl some' ↦ elim (Bool-cases (length tail =ℕ length chunk)) [
          | inl all_of_it ↦ rw (some', all_of_it) nothing
          | inr part ↦ rw (some', part) ((dropped, whole, inr (ground (arith, size))), b)
        ]
      ]

  module _ (target overlap : ℕ) where
    -- The chunks cut the atoms into runs, none of them empty, in order and with nothing left out. Each
    -- chunk is a repeated end of the one before it and then its run. It is within the target, or its
    -- run is a single atom.
    abbrev pub IsPacked : List A → List A → List (List A) → Type ℓ
    IsPacked prev as' [] = as' ≡ []
    IsPacked prev as' (c ∷ cs) =
        (carry : List A) × (run : List A) × (rest : List A) × (c ≡ carry ++ run)
        × (as' ≡ run ++ rest)
        × (1 ≤ length run)
        × IsCarry overlap prev carry
        × ((tokens count c ≤ target) ⊎ (length run ≤ 1))
        × IsPacked c rest cs

    is_empty-append : (carry : List A) (r : A) (rs : List A) → is_empty (carry ++ r ∷ rs) ≡ false
    is_empty-append [] r rs = refl
    is_empty-append (x ∷ carry) r rs = refl

    pack-IsPacked :
        (prev carry : List A) (r : A) (rs : List A) (current_tokens : ℕ) (as' : List A)
        → current_tokens ≡ tokens count (carry ++ r ∷ rs)
        → IsCarry overlap prev carry
        → (tokens count (carry ++ r ∷ rs) ≤ target) ⊎ (length (r ∷ rs) ≤ 1)
        → IsPacked prev
            ((r ∷ rs) ++ as')
            (pack count target overlap (carry ++ r ∷ rs) current_tokens as')
    unfolding pack
    pack-IsPacked prev carry r rs ct [] e c b =
        rw (is_empty-append carry r rs) (carry, r ∷ rs, [], refl, refl, omega arith, c, b, refl)
    pack-IsPacked prev carry r rs ct (a ∷ as') e c b =
        let current : List A = carry ++ r ∷ rs in
        elim (Bool-cases (not (is_empty current) && ltb target (ct + count a))) [
          | inl full ↦
              let next : List A = tail_for_overlap count overlap current in
              rw (full, pack)
                (
                  carry,
                  r ∷ rs,
                  a ∷ as',
                  refl,
                  refl,
                  omega arith,
                  c,
                  b,
                  pack-IsPacked current next a [] (tokens count next + count a) as'
                      (omega (arith, tokens-append next (a ∷ [])))
                      (tail_for_overlap-IsCarry overlap current) (inr (omega arith)),
                )
          | inr room ↦
              let grown : (current ++ a ∷ []) ≡ carry ++ r ∷ (rs ++ a ∷ []) =
                append_assoc carry (r ∷ rs) (a ∷ []) in
              let size : ct + count a ≡ tokens count (carry ++ r ∷ (rs ++ a ∷ [])) =
                omega (arith, e, tokens-append current (a ∷ []), ap (tokens count) grown) in
              let below : ct + count a ≤ target = ground (arith, is_empty-append carry r rs) in
              let this =
                pack-IsPacked prev carry r (rs ++ a ∷ []) (ct + count a) as' size c
                  (inl (omega (arith, size, below))) in
              rw (room, pack)
                (subst
                  (λ l.
                    IsPacked prev l
                      (pack count target overlap (current ++ a ∷ []) (ct + count a) as'))
                  (append_assoc (r ∷ rs) (a ∷ []) as')
                  (subst
                    (λ cur.
                      IsPacked prev ((r ∷ (rs ++ a ∷ [])) ++ as')
                        (pack count target overlap cur (ct + count a) as'))
                    (sym grown) this))
        ]

    -- The packing of atoms into chunks loses none of them and keeps their order: apart from what each
    -- chunk repeats of the end of the one before it, the chunks are the atoms cut into runs that are
    -- not empty. What is repeated is never the whole chunk, and fits the overlap or is one atom. A chunk is
    -- within the target, unless its run is a single atom.
    pub pack_lem : (as' : List A) → IsPacked [] as' (pack count target overlap [] 0 as')
    unfolding pack
    pack_lem [] = refl
    pack_lem (a ∷ as') =
        pack-IsPacked [] [] a [] (0 + count a) as' (omega arith)
          (([], refl, inl refl), inl (omega arith)) (inr (omega arith))
