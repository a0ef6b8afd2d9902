-- ===== src/Subconscious/Surfacing/Complete.antt =====
-- What a scan brings up, and what it leaves out.
use mathlib.Core.Path.{subst}
use mnemostroma.Prelude.{
  ℕ, ◌≤◌, ◌≡◌, refl, sym, true, false, Option, none, some, List, [], ◌∷◌, ◌++◌, arith, string_eq,
  if◌then◌else◌, take, select, map, length, length-take, All, All-append, All-take, Bool-cases,
  true≢false, inl, inr, ◌⊎◌,
}
use mnemostroma.Prelude.Sort.{All-map}
use mnemostroma.Prelude.SortDown.{
  Any, IsSortedDown, sort_down, sort_down-IsSortedDown, Pairwise, All-sort_down, All-unsort_down,
}
use mnemostroma.Subconscious.Surfacing.{
  Source, Surfaced, Kind, is_near, is_match, surfaced_of, key_of, dedupe, matches, associative_scan,
}
use mnemostroma.Subconscious.Surfacing.Best.{
  IsApart, All-dedupe, dedupe-IsApart, dedupe-IsSortedDown, take-IsSortedDown, take-IsApart,
}
use mnemostroma.Subconscious.Surfacing.Served.{IsServed, dedupe-IsServed, kept_or_full}

module _ {V : Type 0} where
  -- The vector of a source is as similar as the threshold asks.
  abbrev pub IsNear : (V → ℕ) → ℕ → Option V → Type 0
  IsNear similarity threshold none = ⊥
  IsNear similarity threshold (some v) = threshold ≤ similarity v

  is_near-IsNear :
      (similarity : V → ℕ) (threshold : ℕ) (o : Option V)
      → is_near similarity threshold o ≡ true
      → IsNear similarity threshold o
  unfolding is_near
  is_near-IsNear similarity threshold none h = true≢false (sym h)
  is_near-IsNear similarity threshold (some v) h = ground (arith, h)

  not-IsNear :
      (similarity : V → ℕ) (threshold : ℕ) (o : Option V)
      → is_near similarity threshold o ≡ false
      → ¬ IsNear similarity threshold o
  unfolding is_near
  not-IsNear similarity threshold none h n = n
  not-IsNear similarity threshold (some v) h n = ground (arith, h, n)

  -- An item is that of a source in a list that is near enough.
  abbrev pub IsOf : (V → ℕ) → (ℕ → ℕ) → Kind → ℕ → List (Source V) → Surfaced V → Type 0
  IsOf similarity round kind threshold sources r =
      Any
        (λ (s : Source V).
          IsNear similarity threshold s.embedding × (r ≡ surfaced_of similarity round kind s))
        sources

  -- An item is told: an item with its id, which is as good, has been brought up, or else the scan is full of
  -- items that are as good.
  abbrev pub IsTold : ℕ → List (Surfaced V) → Surfaced V → Type 0
  IsTold max_results found m =
      Any (λ (r : Surfaced V). (r.source.id ≡ m.source.id) × (key_of m ≤ key_of r)) found
      ⊎ ((length found ≡ max_results) × All (λ (r : Surfaced V). key_of m ≤ key_of r) found)

  -- Every source that is near enough is told.
  abbrev pub AllTold :
      (V → ℕ) → (ℕ → ℕ) → Kind → ℕ → List (Source V) → ℕ → List (Surfaced V) → Type 0
  AllTold similarity round kind threshold sources max_results found =
      All
        (λ (s : Source V).
          (¬ IsNear similarity threshold s.embedding)
          ⊎ IsTold max_results found (surfaced_of similarity round kind s))
        sources

  module _ (similarity : V → ℕ) (round : ℕ → ℕ) (kind : Kind) (threshold : ℕ) where
    selected-IsOf :
        (sources : List (Source V))
        → All (IsOf similarity round kind threshold sources) (
            map
              (surfaced_of similarity round kind)
              (select (is_match similarity threshold) sources))
    unfolding is_match
    selected-IsOf [] = tt
    selected-IsOf (s ∷ sources) =
        let rest =
          All-map
            (map (surfaced_of similarity round kind)
              (select (is_match similarity threshold) sources))
            (λ r h. inr h) (selected-IsOf sources) in
        elim (Bool-cases (is_near similarity threshold s.embedding)) [
          | inl e ↦ rw e (inl (is_near-IsNear similarity threshold s.embedding e, refl), rest)
          | inr e ↦ rw e rest
        ]

    unselected :
        (R : Surfaced V → Type 0) (sources : List (Source V))
        → All R (
            map
              (surfaced_of similarity round kind)
              (select (is_match similarity threshold) sources))
        → All
            (λ (s : Source V).
              (¬ IsNear similarity threshold s.embedding) ⊎ R (surfaced_of similarity round kind s))
            sources
    unfolding is_match
    unselected R [] h = tt
    unselected R (s ∷ sources) h = elim (Bool-cases (is_near similarity threshold s.embedding)) [
      | inl e ↦
          let (head, tail) =
            subst
              (λ b. All R (
                map (surfaced_of similarity round kind) (
                  if b
                  then s ∷ select (is_match similarity threshold) sources
                  else select (is_match similarity threshold) sources)))
              e h in
          (inr head, unselected R sources tail)
      | inr e ↦
          let tail =
            subst
              (λ b. All R (
                map (surfaced_of similarity round kind) (
                  if b
                  then s ∷ select (is_match similarity threshold) sources
                  else select (is_match similarity threshold) sources)))
              e h in
          (inl (not-IsNear similarity threshold s.embedding e), unselected R sources tail)
    ]

  All-left : (R : Surfaced V → Type 0) (xs ys : List (Surfaced V)) → All R (xs ++ ys) → All R xs
  All-left R [] ys h = tt
  All-left R (x ∷ xs) ys h = (h.0, All-left R xs ys h.1)

  All-right : (R : Surfaced V → Type 0) (xs ys : List (Surfaced V)) → All R (xs ++ ys) → All R ys
  All-right R [] ys h = h
  All-right R (x ∷ xs) ys h = All-right R xs ys h.1

  told :
      (n : ℕ) (ds : List (Surfaced V)) (m : Surfaced V)
      → IsSortedDown key_of ds
      → IsServed [] ds m
      → IsTold n (take n ds) m
  told n ds m h (inl s) = absurd (true≢false (sym s))
  told n ds m h (inr a) = kept_or_full m.source.id (key_of m) n ds h a

  -- A scan brings up at most `max_results` items, the most similar first, and no two of one id. Each is the
  -- item of an anchor, or of a session in RAM, that has an embedding at least as similar as the
  -- threshold of its kind. Every such anchor and session is told: there is an item with its id that is at
  -- least as similar, or else there are `max_results` items, all at least as similar. Items are
  -- compared by their rounded similarity.
  pub associative_scan_lem :
      (similarity : V → ℕ) (round : ℕ → ℕ) (anchor_threshold session_threshold max_results : ℕ)
      (anchors ram : List (Source V))
      → let found =
          associative_scan similarity round anchor_threshold session_threshold max_results anchors
            ram in
        (length found ≤ max_results)
        × IsSortedDown key_of found
        × Pairwise IsApart found
        × All
            (λ r.
              IsOf similarity round Kind.anchor anchor_threshold anchors r
              ⊎ IsOf similarity round Kind.session session_threshold ram r)
            found
        × AllTold similarity round Kind.anchor anchor_threshold anchors max_results found
        × AllTold similarity round Kind.session session_threshold ram max_results found
  unfolding associative_scan matches
  associative_scan_lem similarity round anchor_threshold session_threshold n anchors ram =
      let as' : List (Surfaced V) =
        map (surfaced_of similarity round Kind.anchor)
          (select (is_match similarity anchor_threshold) anchors) in
      let ss : List (Surfaced V) =
        map (surfaced_of similarity round Kind.session)
          (select (is_match similarity session_threshold) ram) in
      let sorted : List (Surfaced V) = sort_down key_of (as' ++ ss) in
      let order : IsSortedDown key_of sorted = sort_down-IsSortedDown key_of (as' ++ ss) in
      let distinct : List (Surfaced V) = dedupe [] sorted in
      let order' : IsSortedDown key_of distinct = dedupe-IsSortedDown [] sorted order in
      let Told : Surfaced V → Type 0 = IsTold n (take n distinct) in
      let all_told : All Told (as' ++ ss) =
        All-unsort_down Told key_of (as' ++ ss)
          (All-map sorted (λ m s. told n distinct m order' s) (dedupe-IsServed [] sorted order)) in
      let P : Surfaced V → Type 0 = λ r.
        IsOf similarity round Kind.anchor anchor_threshold anchors r
        ⊎ IsOf similarity round Kind.session session_threshold ram r in
      let all_of : All P (as' ++ ss) =
        All-append P as' ss
          (All-map as' (λ r h. inl h)
            (selected-IsOf similarity round Kind.anchor anchor_threshold anchors))
          (All-map ss (λ r h. inr h)
            (selected-IsOf similarity round Kind.session session_threshold ram)) in
      (
        omega (arith, length-take n distinct),
        take-IsSortedDown n distinct order',
        take-IsApart n distinct (dedupe-IsApart [] sorted),
        All-take P n distinct (All-dedupe P [] sorted (All-sort_down P key_of (as' ++ ss) all_of)),
        unselected similarity round Kind.anchor anchor_threshold Told anchors
            (All-left Told as' ss all_told),
        unselected similarity round Kind.session session_threshold Told ram
            (All-right Told as' ss all_told),
      )
