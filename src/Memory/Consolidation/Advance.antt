-- ===== src/Memory/Consolidation/Advance.antt =====
-- What a pass over the anchors does to each of them.
use mathlib.Core.Path.{subst}
use mnemostroma.Prelude.{
  ℕ, zero, suc, ◌+◌, ◌-◌, ◌*◌, ◌≤◌, ◌<◌, ◌≡◌, refl, ◌∙◌, sym, ap, ◌=ℕ◌, ltb, take, ◌⊎◌, String,
  Bool, true, false, ◌&&◌, List, [], ◌∷◌, arith, min, leb, if◌then◌else◌, length, map, select, All,
  Bool-cases, inl, inr,
}
use mnemostroma.Memory.Consolidation.{
  Anchor, decay_facts_limit, last_access, is_due, advance, run_anchor_decay,
}

nulled_none :
    (b : Bool) (i : String) {xs : List String} → xs ≡ [] → (if b && false then i ∷ xs else xs) ≡ []
nulled_none true i h = h
nulled_none false i h = h

limit_lem : (n : ℕ) → n < 3 → decay_facts_limit (min 3 (n + 1)) ≡ 5 - 2 * min 3 (n + 1)
unfolding decay_facts_limit
limit_lem n h = ground (arith, h)

module _ {ℓ} {F : Type ℓ} where
  -- What a pass makes of one anchor.
  abbrev pub step : ℕ → ℕ → Anchor F → Anchor F
  step threshold_days now a = if is_due threshold_days now a then advance now a else a

  abbrev pub id_of : Anchor F → String
  id_of a = a.anchor_id

  nulled_more :
      (b : Bool) (a : Anchor F) {xs : List String} (ws : List (Anchor F))
      → xs ≡ map id_of ws
      → (if b && true then a.anchor_id ∷ xs else xs) ≡ map id_of (if b then a ∷ ws else ws)
  nulled_more true a ws h = ap (λ l. a.anchor_id ∷ l) h
  nulled_more false a ws h = h

  -- The last access, or the creation where there was none.
  abbrev pub accessed : Anchor F → ℕ
  accessed a = if a.last_accessed_at =ℕ 0 then a.created_at else a.last_accessed_at

  -- Pinned, at the last level, or accessed within the threshold.
  abbrev pub IsSpared : ℕ → ℕ → Anchor F → Type 0
  IsSpared d now a = (a.user_pin ≡ true) ⊎ ((3 ≤ a.decay_level) ⊎ (now < accessed a + d * 86400))

  abbrev pub IsForgotten : ℕ → ℕ → Anchor F → Type 0
  IsForgotten d now a = (a.user_pin ≡ false) × (a.decay_level < 3) × (accessed a + d * 86400 ≤ now)

  -- One level further: the first facts are left, at most 3, 1 and 0 at the levels 1, 2 and 3.
  pub record IsAged (now : ℕ) (a a' : Anchor F) : Type ℓ where
    pub same_id : a'.anchor_id ≡ a.anchor_id
    pub same_pin : a'.user_pin ≡ a.user_pin
    pub same_access : a'.last_accessed_at ≡ a.last_accessed_at
    pub same_creation : a'.created_at ≡ a.created_at
    pub next_level : a'.decay_level ≡ a.decay_level + 1
    pub updated : a'.updated_at ≡ now
    pub first_facts : a'.key_facts ≡ take (5 - 2 * a'.decay_level) a.key_facts

  -- What a pass owes to one anchor.
  abbrev pub IsPassed : ℕ → ℕ → Anchor F → Anchor F → Type ℓ
  IsPassed d now a a' =
      ((is_due d now a ≡ false) × IsSpared d now a × (a' ≡ a))
      ⊎ ((is_due d now a ≡ true) × IsForgotten d now a × IsAged now a a')

  due-IsForgotten : (d now : ℕ) (a : Anchor F) → is_due d now a ≡ true → IsForgotten d now a
  unfolding is_due last_access
  due-IsForgotten d now a h = ground (arith, h)

  spared : (d now : ℕ) (a : Anchor F) → is_due d now a ≡ false → IsSpared d now a
  unfolding is_due last_access
  spared d now a h = ground (arith, h)

  take_all : (n : ℕ) (fs : List F) → length fs ≤ n → take n fs ≡ fs
  take_all zero [] h = refl
  take_all (suc n) [] h = refl
  take_all zero (f ∷ fs) h = absurd (omega (arith, h))
  take_all (suc n) (f ∷ fs) h = ap (λ l. f ∷ l) (take_all n fs (omega (arith, h)))

  cut : (n : ℕ) (fs : List F) → (if ltb n (length fs) then take n fs else fs) ≡ take n fs
  cut n fs = elim (Bool-cases (ltb n (length fs))) [
    | inl e ↦ rw e refl
    | inr e ↦ rw e (sym (take_all n fs (ground (arith, e))))
  ]

  advance-IsAged : (now : ℕ) (a : Anchor F) → a.decay_level < 3 → IsAged now a (advance now a)
  unfolding advance
  advance-IsAged now a h = record {
    same_id = refl;
    same_pin = refl;
    same_access = refl;
    same_creation = refl;
    next_level = omega (arith, h);
    updated = refl;
    first_facts =
        cut (decay_facts_limit (min 3 (a.decay_level + 1))) a.key_facts
        ∙ ap (λ n. take n a.key_facts) (limit_lem a.decay_level h);
  }

  step-IsPassed : (d now : ℕ) (a : Anchor F) → IsPassed d now a (step d now a)
  step-IsPassed d now a = elim (Bool-cases (is_due d now a)) [
    | inl e ↦
        let forgotten = due-IsForgotten d now a e in
        inr (
          e,
          forgotten,
          subst (λ b. IsAged now a (if b then advance now a else a)) (sym e)
              (advance-IsAged now a forgotten.1),
        )
    | inr e ↦ inl (e, spared d now a e, ap (λ b. if b then advance now a else a) e)
  ]

  every : {P : Anchor F → Type ℓ} → ((a : Anchor F) → P a) → (as' : List (Anchor F)) → All P as'
  every f [] = tt
  every f (a ∷ as') = (f a, every f as')

  pass_lem :
      (persistence : Bool) (d now : ℕ) (anchors : List (Anchor F))
      → let pass = run_anchor_decay persistence d now anchors in
        let due = map (advance now) (select (is_due d now) anchors) in
        (pass.anchors ≡ map (step d now) anchors)
        × (pass.saved ≡ (if persistence then due else []))
        × (pass.nulled ≡ (
            if persistence
            then map id_of (select (λ (a : Anchor F). leb 2 a.decay_level) due)
            else []))
        × (pass.decayed ≡ length (select (is_due d now) anchors))
  unfolding run_anchor_decay advance
  pass_lem true d now [] = (refl, refl, refl, refl)
  pass_lem false d now [] = (refl, refl, refl, refl)
  pass_lem true d now (a ∷ as') =
      let (anchors, saved, nulled, decayed) = pass_lem true d now as' in
      elim (Bool-cases (is_due d now a)) [
        | inl e ↦ rw e (
          ap (λ l. advance now a ∷ l) anchors,
          ap (λ l. advance now a ∷ l) saved,
          nulled_more (leb 2 (advance now a).decay_level) (advance now a)
              (select (λ (a : Anchor F). leb 2 a.decay_level)
                (map (advance now) (select (is_due d now) as')))
              nulled,
          omega (arith, decayed),
        )
        | inr e ↦ rw e (ap (λ l. a ∷ l) anchors, saved, nulled, decayed)
      ]
  pass_lem false d now (a ∷ as') =
      let (anchors, saved, nulled, decayed) = pass_lem false d now as' in
      elim (Bool-cases (is_due d now a)) [
        | inl e ↦ rw e (
          ap (λ l. advance now a ∷ l) anchors,
          saved,
          nulled_none (leb 2 (advance now a).decay_level) a.anchor_id nulled,
          omega (arith, decayed),
        )
        | inr e ↦ rw e (ap (λ l. a ∷ l) anchors, saved, nulled, decayed)
      ]

  -- What is due has become what its step says.
  due_steps :
      (d now : ℕ) (anchors : List (Anchor F))
      → map (advance now) (select (is_due d now) anchors)
        ≡ map (step d now) (select (is_due d now) anchors)
  due_steps d now [] = refl
  due_steps d now (a ∷ as') = elim (Bool-cases (is_due d now a)) [
    | inl e ↦ rw e (
        ap (λ l. advance now a ∷ l) (due_steps d now as')
        ∙ ap (λ b. (if b then advance now a else a) ∷ map (step d now) (select (is_due d now) as'))
            (sym e))
    | inr e ↦ rw e (due_steps d now as')
  ]

  -- A pass makes of each anchor, in place, what `step` says: an anchor is left as it is when it is pinned,
  -- at level 3, or accessed within the threshold; any other goes one level further, is dated, and
  -- keeps its first 3, 1 or 0 facts at level 1, 2 or 3. Those others are saved, in their order,
  -- as they have become; the content of those that have come to level 2 or more is dropped; and
  -- their number is returned. Without a persistence layer, nothing is saved or dropped.
  pub run_anchor_decay_lem :
      (persistence : Bool) (d now : ℕ) (anchors : List (Anchor F))
      → let pass = run_anchor_decay persistence d now anchors in
        let due = map (step d now) (select (is_due d now) anchors) in
        (pass.anchors ≡ map (step d now) anchors)
        × All (λ a. IsPassed d now a (step d now a)) anchors
        × (pass.saved ≡ (if persistence then due else []))
        × (pass.nulled ≡ (
            if persistence
            then map id_of (select (λ (a : Anchor F). leb 2 a.decay_level) due)
            else []))
        × (pass.decayed ≡ length (select (is_due d now) anchors))
  run_anchor_decay_lem persistence d now anchors =
      let (made, saved, nulled, decayed) = pass_lem persistence d now anchors in
      let same = due_steps d now anchors in
      (
        made,
        every (step-IsPassed d now) anchors,
        saved ∙ ap (λ due. if persistence then due else []) same,
        nulled
            ∙ ap
                (λ due.
                  if persistence
                  then map id_of (select (λ (a : Anchor F). leb 2 a.decay_level) due)
                  else [])
                same,
        decayed,
      )
