-- ===== src/Subconscious/Guardian/Merged.antt =====
-- What merging the two layers keeps: one warning for each anchor, of the second layer if it has one.
use mnemostroma.Prelude.{
  String, ◌≡◌, refl, ◌∙◌, sym, ap, ◌≢◌, Bool, true, Option, none, some, is_some, List, [], ◌∷◌,
  ◌++◌, arith, ◌==◌, string_eq, ==_iff, ==_refl, if◌then◌else◌, All, All-append, Bool-cases,
  Option-cases, inl, inr,
}
use mnemostroma.Prelude.Dict.{Dict, get, put, get-put, values}
use mnemostroma.Prelude.Distinct.{IsDistinct, IsDistinct-put, entries_found}
use mnemostroma.Prelude.Sort.{All-map}
use mnemostroma.Prelude.SortDown.{
  Any, Any-sort_down, All-sort_down, sort_down, IsSortedDown, sort_down-IsSortedDown, Pairwise,
  Pairwise-sort_down, All-both,
}
use mnemostroma.Subconscious.Guardian.{Warning, score, merge_into, merge_warnings}

module _ {ℓ} {V : Type ℓ} where
  abbrev id_of : Warning V → String
  id_of w = w.anchor.anchor_id

  -- The last of the warnings about the anchor `k`.
  abbrev pub last_about : String → List (Warning V) → Option (Warning V)
  last_about k [] = none
  last_about k (w ∷ ws) = elim (last_about k ws) [
    | some v ↦ some v
    | none ↦ if w.anchor.anchor_id == k then some w else none
  ]

  abbrev pub or_else : Option (Warning V) → Option (Warning V) → Option (Warning V)
  or_else none o = o
  or_else (some w) o = some w

  get-merge_into :
      (merged : Dict String (Warning V)) (ws : List (Warning V)) (k : String)
      → get (merge_into merged ws) k ≡ or_else (last_about k ws) (get merged k)
  unfolding merge_into
  get-merge_into merged [] k = refl
  get-merge_into merged (w ∷ ws) k =
      get-merge_into (put merged (id_of w) w) ws k ∙ step (last_about k ws)
    where
      step :
          (o : Option (Warning V))
          → or_else o (get (put merged (id_of w) w) k)
            ≡ or_else
                (elim o [ some v ↦ some v | none ↦ if id_of w == k then some w else none ])
                (get merged k)
      step none = get-put merged (id_of w) k w ∙ ground arith
      step (some v) = refl

  -- Each warning stands under the id of its anchor.
  abbrev IsKeyed : String × Warning V → Type 0
  IsKeyed e = e.1.anchor.anchor_id ≡ e.0

  put-IsKeyed :
      (d : Dict String (Warning V)) (w : Warning V)
      → All IsKeyed d
      → All IsKeyed (put d (id_of w) w)
  unfolding put
  put-IsKeyed [] w h = (refl, tt)
  put-IsKeyed ((j, v) ∷ d) w h = elim (Bool-cases (j == id_of w)) [
    | inl e ↦ rw e (ground (arith, ==_iff j (id_of w)), h.1)
    | inr e ↦ rw e (h.0, put-IsKeyed d w h.1)
  ]

  merge_into-IsKeyed :
      (d : Dict String (Warning V)) (ws : List (Warning V))
      → All IsKeyed d
      → All IsKeyed (merge_into d ws)
  unfolding merge_into
  merge_into-IsKeyed d [] h = h
  merge_into-IsKeyed d (w ∷ ws) h = merge_into-IsKeyed (put d (id_of w) w) ws (put-IsKeyed d w h)

  merge_into-IsDistinct :
      (d : Dict String (Warning V)) (ws : List (Warning V))
      → IsDistinct d
      → IsDistinct (merge_into d ws)
  unfolding merge_into
  merge_into-IsDistinct d [] h = h
  merge_into-IsDistinct d (w ∷ ws) h =
      merge_into-IsDistinct (put d (id_of w) w) ws (IsDistinct-put d (id_of w) w h)

  abbrev Differ : Warning V → Warning V → Type 0
  Differ v w = v.anchor.anchor_id ≢ w.anchor.anchor_id

  values-Differ :
      (d : Dict String (Warning V)) → All IsKeyed d → IsDistinct d → Pairwise Differ (values d)
  values-Differ [] h d = tt
  values-Differ ((k, v) ∷ ds) h d = (others ds h.1 d.0, values-Differ ds h.1 d.1)
    where
      others :
          (es : Dict String (Warning V))
          → All IsKeyed es
          → All (λ e. e.0 ≢ k) es
          → All (Differ v) (values es)
      others [] a b = tt
      others ((j, w) ∷ es) a b = ((λ e. b.0 (sym a.0 ∙ sym e ∙ h.0)), others es a.1 b.1)

  All-values :
      (P : Warning V → Type ℓ) (d : Dict String (Warning V)) → All (λ e. P e.1) d → All P (values d)
  All-values P [] h = tt
  All-values P (e ∷ d) h = (h.0, All-values P d h.1)

  present :
      (d : Dict String (Warning V)) (k : String) (w : Warning V)
      → All IsKeyed d
      → get d k ≡ some w
      → Any (λ v. v.anchor.anchor_id ≡ k) (values d)
  unfolding get
  present [] k w h e = cc
  present ((j, v) ∷ d) k w h e = elim (Bool-cases (j == k)) [
    | inl same ↦ inl (h.0 ∙ (==_iff j k).0 same)
    | inr other ↦ inr (present d k w h.1 (ground arith))
  ]

  all_known :
      (ws : List (Warning V))
      → All (λ (v : Warning V). is_some (last_about v.anchor.anchor_id ws) ≡ true) ws
  all_known [] = tt
  all_known (w ∷ ws) = (
    itself (last_about (id_of w) ws),
    All-map ws (λ (v : Warning V) h. further (last_about (id_of v) ws) (id_of w == id_of v) h)
        (all_known ws),
  )
    where
      itself :
          (o : Option (Warning V))
          → is_some
              (elim o [ some v ↦ some v | none ↦ if id_of w == id_of w then some w else none ])
            ≡ true
      itself (some v) = refl
      itself none = rw (==_refl (id_of w)) refl

      further :
          (o : Option (Warning V)) (b : Bool)
          → is_some o ≡ true
          → is_some (elim o [ some v ↦ some v | none ↦ if b then some w else none ]) ≡ true
      further (some v) b h = refl
      further none b h = cc

  or_none : (k : String) (o : Option (Warning V)) → or_else o (get {V = Warning V} [] k) ≡ o
  unfolding get
  or_none k none = refl
  or_none k (some w) = refl

  module _ (layer1 layer2 : List (Warning V)) where
    -- The last warning of the second layer about an anchor, or else the last one of the first.
    abbrev pub chosen : String → Option (Warning V)
    chosen k = or_else (last_about k layer2) (last_about k layer1)

    abbrev merged : Dict String (Warning V)
    merged = merge_into (merge_into [] layer1) layer2

    get-merged : (k : String) → get merged k ≡ chosen k
    get-merged k =
        get-merge_into (merge_into [] layer1) layer2 k
        ∙ ap (or_else (last_about k layer2))
            (get-merge_into [] layer1 k ∙ or_none k (last_about k layer1))

    merged-IsKeyed : All IsKeyed merged
    merged-IsKeyed =
        merge_into-IsKeyed (merge_into [] layer1) layer2 (merge_into-IsKeyed [] layer1 tt)

    merged-IsDistinct : IsDistinct merged
    merged-IsDistinct =
        merge_into-IsDistinct (merge_into [] layer1) layer2 (merge_into-IsDistinct [] layer1 tt)

    has_warning :
        (k : String)
        → is_some (chosen k) ≡ true
        → Any (λ (w : Warning V). w.anchor.anchor_id ≡ k) (values merged)
    has_warning k h = elim (Option-cases (get merged k)) [
      | inl gone ↦ absurd (ground (arith, get-merged k))
      | inr (w, there) ↦ present merged k w merged-IsKeyed there
    ]

    -- The two layers of warnings are merged into one warning for each anchor that has any: the last
    -- one of the second layer about it, or if there is none, the last one of the first. No two are about the
    -- same anchor, and the greatest similarity comes first, where a missing one counts as zero.
    pub merge_warnings_lem :
        All (λ (w : Warning V). chosen w.anchor.anchor_id ≡ some w) (merge_warnings layer1 layer2)
        × All
            (λ (v : Warning V).
              Any
                (λ (w : Warning V). w.anchor.anchor_id ≡ v.anchor.anchor_id)
                (merge_warnings layer1 layer2))
            (layer1 ++ layer2)
        × Pairwise
            (λ (v w : Warning V). v.anchor.anchor_id ≢ w.anchor.anchor_id)
            (merge_warnings layer1 layer2)
        × IsSortedDown score (merge_warnings layer1 layer2)
    unfolding merge_warnings
    merge_warnings_lem =
        let Chosen : Warning V → Type ℓ = λ w. chosen w.anchor.anchor_id ≡ some w in
        let Told : Warning V → Type 0 = λ v.
          Any (λ (w : Warning V). w.anchor.anchor_id ≡ v.anchor.anchor_id)
            (sort_down score (values merged)) in
        let told : (v : Warning V) → is_some (chosen (id_of v)) ≡ true → Told v = λ v h.
          Any-sort_down (λ (w : Warning V). w.anchor.anchor_id ≡ id_of v) score (values merged)
            (has_warning (id_of v) h) in
        (
          All-sort_down Chosen score (values merged) (
              All-values Chosen merged (
                All-map merged (λ e h. sym (get-merged (id_of e.1)) ∙ ap (get merged) h.1 ∙ h.0)
                  (All-both (λ e. get merged e.0 ≡ some e.1) IsKeyed merged
                    (entries_found merged merged-IsDistinct) merged-IsKeyed))),
          All-append Told layer1 layer2
              (All-map layer1
                (λ v h.
                  told v (first (last_about (id_of v) layer2) (last_about (id_of v) layer1) h))
                (all_known layer1))
              (All-map layer2
                (λ v h.
                  told v (second (last_about (id_of v) layer2) (last_about (id_of v) layer1) h))
                (all_known layer2)),
          Pairwise-sort_down Differ (λ v w h e. h (sym e)) score (values merged)
              (values-Differ merged merged-IsKeyed merged-IsDistinct),
          sort_down-IsSortedDown score (values merged),
        )
      where
        first : (o p : Option (Warning V)) → is_some p ≡ true → is_some (or_else o p) ≡ true
        first (some v) p h = refl
        first none p h = h

        second : (o p : Option (Warning V)) → is_some o ≡ true → is_some (or_else o p) ≡ true
        second (some v) p h = refl
        second none p h = cc
