-- ===== src/Memory/Consolidation/Passes.antt =====
-- Where repeated passes over the anchors lead.
use mathlib.Core.Path.{subst}
use mnemostroma.Prelude.{
  ℕ, ◌+◌, ◌*◌, ◌≤◌, ◌≡◌, refl, ◌∙◌, sym, ap, Bool, false, List, [], ◌∷◌, arith, min, length,
  length-take, map, All, Bool-cases, inl, inr,
}
use mnemostroma.Memory.Consolidation.Advance.{step, run_anchor_decay_lem}
use mnemostroma.Memory.Consolidation.{
  Anchor, decay_facts_limit, last_access, is_due, advance, run_anchor_decay,
}

module _ {ℓ} {F : Type ℓ} where
  -- The level is one of the four, and there are no more facts than it allows.
  abbrev pub IsTrimmed : Anchor F → Type 0
  IsTrimmed a = (a.decay_level ≤ 3) × (length a.key_facts ≤ decay_facts_limit a.decay_level)

  advance-IsTrimmed : (now : ℕ) (a : Anchor F) → IsTrimmed (advance now a)
  unfolding advance
  advance-IsTrimmed now a =
      let limit : ℕ = decay_facts_limit (min 3 (a.decay_level + 1)) in
      (omega arith, ground (arith, length-take limit a.key_facts))

  step-IsTrimmed : (d now : ℕ) (a : Anchor F) → IsTrimmed a → IsTrimmed (step d now a)
  step-IsTrimmed d now a h = elim (Bool-cases (is_due d now a)) [
    | inl e ↦ rw e (advance-IsTrimmed now a)
    | inr e ↦ rw e h
  ]

  -- The anchors after passes at the given times.
  abbrev pub passes : Bool → ℕ → List ℕ → List (Anchor F) → List (Anchor F)
  passes persistence d [] anchors = anchors
  passes persistence d (now ∷ nows) anchors =
      passes persistence d nows (run_anchor_decay persistence d now anchors).anchors

  abbrev steps : ℕ → List ℕ → Anchor F → Anchor F
  steps d [] a = a
  steps d (now ∷ nows) a = steps d nows (step d now a)

  map-map :
      (f g : Anchor F → Anchor F) (as' : List (Anchor F))
      → map f (map g as') ≡ map (λ a. f (g a)) as'
  map-map f g [] = refl
  map-map f g (a ∷ as') = ap (λ l. f (g a) ∷ l) (map-map f g as')

  map-id : (as' : List (Anchor F)) → as' ≡ map (λ a. a) as'
  map-id [] = refl
  map-id (a ∷ as') = ap (λ l. a ∷ l) (map-id as')

  passes-map :
      (persistence : Bool) (d : ℕ) (nows : List ℕ) (anchors : List (Anchor F))
      → passes persistence d nows anchors ≡ map (steps d nows) anchors
  passes-map persistence d [] anchors = map-id anchors
  passes-map persistence d (now ∷ nows) anchors =
      ap (passes persistence d nows) (run_anchor_decay_lem persistence d now anchors).0
      ∙ passes-map persistence d nows (map (step d now) anchors)
      ∙ map-map (steps d nows) (step d now) anchors

  All-steps {κ μ} :
      (P : Anchor F → Type κ) (Q : Anchor F → Type μ) (f : Anchor F → Anchor F)
      → ((a : Anchor F) → P a → Q (f a))
      → (anchors : List (Anchor F)) → All P anchors
      → All Q (map f anchors)
  All-steps P Q f g [] h = tt
  All-steps P Q f g (a ∷ as') h = (g a h.0, All-steps P Q f g as' h.1)

  no_facts : (fs : List F) → length fs ≤ 0 → fs ≡ []
  no_facts [] h = refl
  no_facts (f ∷ fs) h = absurd (omega (arith, h))

  All-passes {κ μ} :
      (P : Anchor F → Type κ) (Q : Anchor F → Type μ) (persistence : Bool) (d : ℕ) (nows : List ℕ)
      → ((a : Anchor F) → P a → Q (steps d nows a))
      → (anchors : List (Anchor F)) → All P anchors
      → All Q (passes persistence d nows anchors)
  All-passes P Q persistence d nows f anchors h =
      subst (All Q) (sym (passes-map persistence d nows anchors))
        (All-steps P Q (steps d nows) f anchors h)

  steps-IsTrimmed :
      (d : ℕ) (nows : List ℕ) (a : Anchor F) → IsTrimmed a → IsTrimmed (steps d nows a)
  steps-IsTrimmed d [] a h = h
  steps-IsTrimmed d (now ∷ nows) a h =
      steps-IsTrimmed d nows (step d now a) (step-IsTrimmed d now a h)

  -- Passes at any times keep every anchor trimmed: its level is one of the four, and it has no more facts
  -- than the level allows.
  pub passes-IsTrimmed :
      (persistence : Bool) (d : ℕ) (nows : List ℕ) (anchors : List (Anchor F))
      → All IsTrimmed anchors
      → All IsTrimmed (passes persistence d nows anchors)
  passes-IsTrimmed persistence d nows =
      All-passes IsTrimmed IsTrimmed persistence d nows (steps-IsTrimmed d nows)

  -- An anchor that nobody pinned and that every pass finds inactive.
  abbrev pub IsIdle : ℕ → List ℕ → Anchor F → Type 0
  IsIdle d nows a = (a.user_pin ≡ false) × All (λ now. last_access a + d * 86400 ≤ now) nows

  not_due :
      (d now : ℕ) (a : Anchor F)
      → is_due d now a ≡ false
      → a.user_pin ≡ false
      → last_access a + d * 86400 ≤ now
      → min 3 (a.decay_level + 1) ≤ a.decay_level
  unfolding is_due
  not_due d now a e p l = ground (arith, e, p, l)

  step-IsIdle :
      (d now : ℕ) (nows : List ℕ) (a : Anchor F)
      → IsIdle d (now ∷ nows) a
      → (min 3 (a.decay_level + 1) ≤ (step d now a).decay_level) × IsIdle d nows (step d now a)
  unfolding is_due advance last_access
  step-IsIdle d now nows a h = elim (Bool-cases (is_due d now a)) [
    | inl e ↦ rw e (omega arith, (h.0, h.1.1))
    | inr e ↦ rw e (not_due d now a e h.0 h.1.0, (h.0, h.1.1))
  ]

  steps-IsIdle :
      (d : ℕ) (nows : List ℕ) (a : Anchor F)
      → IsIdle d nows a
      → min 3 (a.decay_level + length nows) ≤ (steps d nows a).decay_level
  steps-IsIdle d [] a h = omega arith
  steps-IsIdle d (now ∷ nows) a h =
      let (level, idle) = step-IsIdle d now nows a h in
      omega (arith, level, steps-IsIdle d nows (step d now a) idle)

  -- Three passes or more, each of which finds every anchor unpinned and without an access for the
  -- threshold, leave every one of them at level 3 and without a fact.
  pub passes_lem :
      (persistence : Bool) (d : ℕ) (nows : List ℕ) (anchors : List (Anchor F))
      → 3 ≤ length nows
      → All (λ a. IsTrimmed a × IsIdle d nows a) anchors
      → All
          (λ (a : Anchor F). (a.decay_level ≡ 3) × (a.key_facts ≡ []))
          (passes persistence d nows anchors)
  unfolding decay_facts_limit
  passes_lem persistence d nows anchors l =
      All-passes (λ a. IsTrimmed a × IsIdle d nows a)
        (λ a. (a.decay_level ≡ 3) × (a.key_facts ≡ [])) persistence d nows
        (λ a h.
          let t = steps-IsTrimmed d nows a h.0 in
          let n : (steps d nows a).decay_level ≡ 3 =
            omega (arith, t.0, steps-IsIdle d nows a h.1, l) in
          (n, no_facts (steps d nows a).key_facts (omega (arith, t.1, ap decay_facts_limit n))))
        anchors
