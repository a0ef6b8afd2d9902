-- ===== src/Subconscious/Anchors/Capacity.antt =====
-- The index holds no more anchors than its capacity, and lets go of the one not accessed longest.
use mathlib.Core.Path.{subst}
use mnemostroma.Prelude.{
  ℕ, ◌+◌, ◌≤◌, ◌<◌, String, ◌≡◌, refl, ◌∙◌, sym, true, Option, none, some, is_some, [], ◌∷◌, arith,
  string_eq, ==_iff, leb, ltb, if◌then◌else◌, length, All, Bool-cases, inl, inr, ◌⊎◌,
}
use mnemostroma.Prelude.Dict.{Dict, get, put, remove, get-put, length-put, length-remove_lt}
use mnemostroma.Prelude.Distinct.{IsDistinct, IsDistinct-put, IsDistinct-remove, entries_found}
use mnemostroma.Subconscious.Anchors.{
  Anchor, AnchorIndex, touch, touched, resurface, oldest_from, evict_oldest, room_for, put_anchor,
}

module _ {ℓ} {F : Type ℓ} where
  -- No id stands twice, there is room for an anchor, and no more are held than there is room for.
  pub record IsBounded (ix : AnchorIndex F) : Type ℓ where
    pub distinct : IsDistinct ix.anchors
    pub positive : 1 ≤ ix.max_capacity
    pub bounded : length ix.anchors ≤ ix.max_capacity

  abbrev IsEntry : Dict String (Anchor F) → String × Anchor F → Type ℓ
  IsEntry d e = get d e.0 ≡ some e.1

  -- The anchor was accessed no later than the one of the entry.
  abbrev pub IsOlder : Anchor F → String × Anchor F → Type 0
  IsOlder a e = a.last_accessed_at ≤ e.1.last_accessed_at

  -- The entry `o` of `d` was accessed no later than those of `es`.
  abbrev IsLeast : Dict String (Anchor F) → Dict String (Anchor F) → String × Anchor F → Type ℓ
  IsLeast d es o = IsEntry d o × All (IsOlder o.1) es

  oldest_from_step :
      (best e : String × Anchor F) (es : Dict String (Anchor F))
      → oldest_from best (e ∷ es)
        ≡ oldest_from (if ltb e.1.last_accessed_at best.1.last_accessed_at then e else best) es
  unfolding oldest_from
  oldest_from_step best e es = refl

  oldest_from-IsLeast :
      (d : Dict String (Anchor F)) (best : String × Anchor F) (es : Dict String (Anchor F))
      → IsEntry d best
      → All (IsEntry d) es
      → IsLeast d (best ∷ es) (oldest_from best es)
  unfolding oldest_from
  oldest_from-IsLeast d best [] b h = (b, (omega arith, tt))
  oldest_from-IsLeast d best (e ∷ es) b h =
      elim (Bool-cases (ltb e.1.last_accessed_at best.1.last_accessed_at)) [
        | inl less ↦
            let (x, y) = oldest_from-IsLeast d e es h.0 h.1 in
            let le : e.1.last_accessed_at ≤ best.1.last_accessed_at = ground arith in
            let step : oldest_from best (e ∷ es) ≡ oldest_from e es =
              oldest_from_step best e es ∙ rw less refl in
            subst (IsLeast d (best ∷ e ∷ es)) (sym step) (x, (omega (arith, y.0), (y.0, y.1)))
        | inr more ↦
            let (x, y) = oldest_from-IsLeast d best es b h.1 in
            let le : best.1.last_accessed_at ≤ e.1.last_accessed_at = ground arith in
            let step : oldest_from best (e ∷ es) ≡ oldest_from best es =
              oldest_from_step best e es ∙ rw more refl in
            subst (IsLeast d (best ∷ e ∷ es)) (sym step) (x, (y.0, (omega (arith, y.0), y.1)))
      ]

  -- What an eviction does to a dictionary that is not empty.
  pub record Evicts (d : Dict String (Anchor F)) (evicted : Option (Anchor F))
      (d' : Dict String (Anchor F)) : Type ℓ where
    pub id : String
    pub anchor : Anchor F
    pub taken : evicted ≡ some anchor
    pub was_there : get d id ≡ some anchor
    pub oldest : All (IsOlder anchor) d
    pub others : d' ≡ remove d id

  evict_oldest-Evicts :
      (d : Dict String (Anchor F))
      → IsDistinct d
      → 1 ≤ length d
      → Evicts d (evict_oldest d).0 (evict_oldest d).1
  unfolding evict_oldest
  evict_oldest-Evicts [] h n = absurd (omega arith)
  evict_oldest-Evicts (e ∷ es) h n =
      let found = entries_found (e ∷ es) h in
      let (x, y) = oldest_from-IsLeast (e ∷ es) e es found.0 found.1 in
      record {
        id = (oldest_from e es).0;
        anchor = (oldest_from e es).1;
        taken = refl;
        was_there = x;
        oldest = y;
        others = refl;
      }

  -- An anchor is put in without an eviction, or after the eviction of the oldest one.
  room_for_lem :
      (a : Anchor F) (ix : AnchorIndex F)
      → IsBounded ix
      → (((room_for a ix).0 ≡ none)
          × ((room_for a ix).1 ≡ ix.anchors)
          × ((is_some (get ix.anchors a.anchor_id) ≡ true) ⊎ (length ix.anchors < ix.max_capacity)))
        ⊎ ((get ix.anchors a.anchor_id ≡ none)
            × (length ix.anchors ≡ ix.max_capacity)
            × Evicts ix.anchors (room_for a ix).0 (room_for a ix).1)
  unfolding room_for
  room_for_lem a ix v = elim (Bool-cases (is_some (get ix.anchors a.anchor_id))) [
    | inl there ↦ rw (there, room_for) (inl (refl, refl, inl refl))
    | inr new ↦ elim (Bool-cases (leb ix.max_capacity (length ix.anchors))) [
      | inl full ↦
          let le : ix.max_capacity ≤ length ix.anchors = ground arith in
          let evicts = evict_oldest-Evicts ix.anchors v.distinct (omega (arith, v.positive)) in
          let missing : get ix.anchors a.anchor_id ≡ none = ground arith in
          rw (new, full, room_for) (inr (missing, omega (arith, v.bounded), evicts))
      | inr room ↦
          let less : length ix.anchors < ix.max_capacity = ground arith in
          rw (new, room, room_for) (inl (refl, refl, inr less))
    ]
  ]

  -- What an insertion did to the index: the anchor is in it, and either no other anchor is touched,
  -- or the index was full of others and lost one that none of the others was accessed before.
  pub record Inserts (a : Anchor F) (ix : AnchorIndex F) (evicted : Option (Anchor F))
      (ix' : AnchorIndex F) : Type ℓ where
    pub inserted : get ix'.anchors a.anchor_id ≡ some a
    pub outcome :
        ((evicted ≡ none) × (ix'.anchors ≡ put ix.anchors a.anchor_id a))
        ⊎ ((length ix.anchors ≡ ix.max_capacity)
            × (get ix.anchors a.anchor_id ≡ none)
            × ((d : Dict String (Anchor F)) × Evicts ix.anchors evicted d
                × (ix'.anchors ≡ put d a.anchor_id a)))

  -- Putting an anchor in keeps the index within its capacity. Either no other anchor is affected,
  -- or the index was full and the anchor new, and the anchor that is returned, and no other, has
  -- left it: one that was accessed no later than any other.
  pub put_anchor-IsBounded :
      (a : Anchor F) (ix : AnchorIndex F)
      → IsBounded ix
      → IsBounded (put_anchor a ix).1 × Inserts a ix (put_anchor a ix).0 (put_anchor a ix).1
  unfolding put_anchor
  put_anchor-IsBounded a ix v = elim (room_for_lem a ix v) [
    | inl (e0, e1, room) ↦ (
      record {
        distinct = rw e1 (IsDistinct-put ix.anchors a.anchor_id a v.distinct);
        positive = v.positive;
        bounded = rw e1 (ground (arith, length-put ix.anchors a.anchor_id a, v.bounded, room));
      },
      record {
        inserted = rw e1 (
            ground (
              arith,
              get-put ix.anchors a.anchor_id a.anchor_id a,
              ==_iff a.anchor_id a.anchor_id,
            ));
        outcome = inl (e0, rw e1 refl);
      },
    )
    | inr (new, full, evicts) ↦
        let d : Dict String (Anchor F) = (room_for a ix).1 in
        let less : length d + 1 ≤ length ix.anchors =
          rw evicts.others (length-remove_lt ix.anchors evicts.id evicts.anchor evicts.was_there) in
        (
          record {
            distinct =
                IsDistinct-put d a.anchor_id a
                  (rw evicts.others (IsDistinct-remove ix.anchors evicts.id v.distinct));
            positive = v.positive;
            bounded = ground (arith, length-put d a.anchor_id a, less, v.bounded);
          },
          record {
            inserted =
                ground (arith, get-put d a.anchor_id a.anchor_id a, ==_iff a.anchor_id a.anchor_id);
            outcome = inr (full, new, (d, evicts, refl));
          },
        )
  ]

  -- Reading an anchor with an access keeps the index within its capacity, and leaves the anchor in
  -- it with one access more, at the given time.
  pub resurface-IsBounded :
      (now : ℕ) (k : String) (ix : AnchorIndex F) (a : Anchor F)
      → IsBounded ix
      → get ix.anchors k ≡ some a
      → IsBounded (resurface now k ix).1
        × ((resurface now k ix).0 ≡ some (touch now a))
        × (get (resurface now k ix).1.anchors k ≡ some (touch now a))
        × (length (resurface now k ix).1.anchors ≡ length ix.anchors)
  unfolding resurface touched
  resurface-IsBounded now k ix a v h = rw h (
    record {
      distinct = IsDistinct-put ix.anchors k (touch now a) v.distinct;
      positive = v.positive;
      bounded = ground (arith, length-put ix.anchors k (touch now a), h, v.bounded);
    },
    refl,
    ground (arith, get-put ix.anchors k k (touch now a), ==_iff k k),
    ground (arith, length-put ix.anchors k (touch now a), h),
  )
