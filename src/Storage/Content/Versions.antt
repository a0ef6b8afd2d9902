-- ===== src/Storage/Content/Versions.antt =====
-- The versions of a block are numbered from 1, and what a save does to them and to the queue.
use mnemostroma.Prelude.{
  ℕ, ◌+◌, ◌≤◌, ◌≡◌, refl, String, false, Option, none, some, List, [], ◌∷◌, ◌++◌, arith, ◌=ℕ◌, ◌==◌,
  nat_eq, string_eq, if◌then◌else◌, is_some, length,
}
use mnemostroma.Prelude.Dict.{get}
use mnemostroma.Storage.Content.{
  ContentVersion, ContentBlock, Item, Store, last, next_version, is_unchanged,
}

module _ {ℓ} {E : Type ℓ} where
  abbrev pub versions_in : Option (ContentBlock E) → List (ContentVersion E)
  versions_in none = []
  versions_in (some block) = block.versions

  -- The versions of a content in RAM.
  abbrev pub versions_of : Store E → String → List (ContentVersion E)
  versions_of s content_id = versions_in (get s.blocks content_id)

  -- The items that were given to the persistence layer.
  abbrev pub items_of : Option (List (Item E)) → List (Item E)
  items_of none = []
  items_of (some items) = items

  -- The version with a number.
  abbrev pub find : ℕ → List (ContentVersion E) → Option (ContentVersion E)
  find n [] = none
  find n (v ∷ vs) = if v.version =ℕ n then some v else find n vs

  -- Numbered one after the other from `n`, and no version has the hash of the one before it.
  abbrev pub Numbered : ℕ → List (ContentVersion E) → Type 0
  Numbered n [] = Unit
  Numbered n (v ∷ []) = v.version ≡ n
  Numbered n (v ∷ w ∷ vs) =
      (v.version ≡ n) × ((v.content_hash == w.content_hash) ≡ false) × Numbered (n + 1) (w ∷ vs)

  abbrev pub Differs : Option (ContentVersion E) → ContentVersion E → Type 0
  Differs none v = Unit
  Differs (some w) v = (w.content_hash == v.content_hash) ≡ false

  pub Numbered-snoc :
      (n : ℕ) (vs : List (ContentVersion E)) (v : ContentVersion E)
      → Numbered n vs
      → v.version ≡ n + length vs
      → Differs (last vs) v
      → Numbered n (vs ++ v ∷ [])
  Numbered-snoc n [] v h e d = omega (arith, e)
  Numbered-snoc n (w ∷ []) v h e d = (h, d, omega (arith, e))
  Numbered-snoc n (w ∷ x ∷ vs) v h e d =
      (h.0, h.1, Numbered-snoc (n + 1) (x ∷ vs) v h.2 (omega (arith, e)) d)

  next-last :
      (n : ℕ) (v : ContentVersion E) (vs : List (ContentVersion E))
      → Numbered n (v ∷ vs)
      → next_version (last (v ∷ vs)) ≡ n + length (v ∷ vs)
  unfolding next_version
  next-last n v [] h = omega (arith, h)
  next-last n v (w ∷ vs) h = omega (arith, next-last (n + 1) w vs h.2)

  -- The number of the next version.
  pub next_version-last :
      (vs : List (ContentVersion E)) → Numbered 1 vs → next_version (last vs) ≡ 1 + length vs
  unfolding next_version
  next_version-last [] h = refl
  next_version-last (v ∷ vs) h = next-last 1 v vs h

  pub Differs-unchanged :
      (v : ContentVersion E) (o : Option (ContentVersion E))
      → is_unchanged v.content_hash o ≡ false
      → Differs o v
  unfolding is_unchanged
  Differs-unchanged v none h = tt
  Differs-unchanged v (some w) h = h

  pub find-outside :
      (n m : ℕ) (vs : List (ContentVersion E))
      → Numbered n vs
      → n + length vs ≤ m
      → find m vs ≡ none
  find-outside n m [] h l = refl
  find-outside n m (v ∷ []) h l = ground (arith, h, l)
  find-outside n m (v ∷ w ∷ vs) h l =
      ground (arith, h.0, l, find-outside (n + 1) m (w ∷ vs) h.2 (omega (arith, l)))

  pub find-snoc :
      (n : ℕ) (vs : List (ContentVersion E)) (v : ContentVersion E)
      → find n (vs ++ v ∷ [])
        ≡ (if is_some (find n vs) then find n vs else if v.version =ℕ n then some v else none)
  find-snoc n [] v = refl
  find-snoc n (w ∷ vs) v = ground (arith, find-snoc n vs v)
