-- ===== src/Storage/Content/Interleaved.antt =====
-- Saves whose two steps interleave, where no two of one content overlap.
use mathlib.Core.Path.{subst}
use mnemostroma.Prelude.{
  ℕ, ◌≡◌, refl, ◌∙◌, sym, ap, String, Bool, true, false, Option, none, some, List, [], ◌∷◌, ◌++◌,
  ◌==◌, ==_iff, nat_eq, string_eq, if◌then◌else◌, inl, inr, ◌⊎◌,
}
use mnemostroma.Prelude.Dict.{Dict, get, put, remove, get-put, get-remove}
use mnemostroma.Storage.Content.{
  ContentVersion, Codec, Store, Request, last, version_of, row_of, flush_batch, Begun, awaiting,
  finished, begun, begin_save, end_save, open_block, is_unchanged, embed,
}
use mnemostroma.Storage.Content.Versions.{versions_of}
use mnemostroma.Storage.Content.Kept.{new_store, IsKept, IsKept-IsSame, IsKept-Outcome}
use mnemostroma.Storage.Content.Outcomes.{
  versions-new_block, open_block-IsSame, saved-Outcome, IsSame, Outcome, unchanged, raised, stored,
}

-- The saves that await the encoder, under their contents, with the last version that they saw.
abbrev pub Waiting {ℓ} : Type ℓ → Type ℓ
Waiting E = Dict String (Request × Option (ContentVersion E))

module _ {ℓ} {E : Type ℓ} where
  abbrev pub wait_for : Request → Begun E → Waiting E → Waiting E
  wait_for r (finished v) ws = ws
  wait_for r (awaiting last_version) ws = put ws r.content_id (r, last_version)

  -- The two steps of saves since a start on an empty database, with a queue and with or without an index. A
  -- save begins only when none of its content awaits the encoder.
  pub data Reach (codec : Codec E) : Store E → Waiting E → Type ℓ where
    here : (content_index : Option (List (ℕ × E))) → Reach codec (new_store content_index) []
    begins :
        {s : Store E} {ws : Waiting E}
        → Reach codec s ws
        → (r : Request) → get ws r.content_id ≡ none
        → Reach codec (begin_save codec r s).1 (wait_for r (begin_save codec r s).0 ws)
    ends :
        {s : Store E} {ws : Waiting E}
        → Reach codec s ws
        → (content_id : String) (r : Request) (last_version : Option (ContentVersion E))
        → get ws content_id ≡ some (r, last_version)
        → Reach codec (end_save codec r last_version s).1 (remove ws content_id)

  -- A save that awaits the encoder has seen the version that is still the last one of its content, and its
  -- text has another hash.
  pub record IsCurrent (codec : Codec E) (s : Store E) (content_id : String)
      (w : Request × Option (ContentVersion E)) : Type ℓ where
    pub same_content : w.0.content_id ≡ content_id
    pub still_last : w.1 ≡ last (versions_of s content_id)
    pub changed : is_unchanged (codec.get_content_hash w.0.text) w.1 ≡ false

  abbrev pub AllCurrent : Codec E → Store E → Waiting E → Type ℓ
  AllCurrent codec s ws =
      (content_id : String) (w : Request × Option (ContentVersion E))
      → get ws content_id ≡ some w
      → IsCurrent codec s content_id w

  IsCurrent-same :
      {codec : Codec E} {s t : Store E} {j : String} {w : Request × Option (ContentVersion E)}
      → versions_of t j ≡ versions_of s j
      → IsCurrent codec s j w
      → IsCurrent codec t j w
  IsCurrent-same e c = record {
    same_content = c.same_content;
    still_last = c.still_last ∙ ap last (sym e);
    changed = c.changed;
  }

  put_cases :
      (b : Bool) (x w : Request × Option (ContentVersion E))
      (o : Option (Request × Option (ContentVersion E)))
      → (if b then some x else o) ≡ some w
      → ((b ≡ true) × (x ≡ w)) ⊎ (o ≡ some w)
  put_cases true x w o e = inl (refl, cc)
  put_cases false x w o e = inr e

  remove_cases :
      (b : Bool) (w : Request × Option (ContentVersion E))
      (o : Option (Request × Option (ContentVersion E)))
      → (if b then none else o) ≡ some w
      → (b ≡ false) × (o ≡ some w)
  remove_cases true w o e = cc
  remove_cases false w o e = (refl, e)

  -- What begins is current, and what waits stays current.
  begun-AllCurrent :
      (codec : Codec E) (r : Request) (s t : Store E) (ws : Waiting E)
      (last_version : Option (ContentVersion E)) (b : Bool)
      → IsSame s t
      → last_version ≡ last (versions_of s r.content_id)
      → is_unchanged (codec.get_content_hash r.text) last_version ≡ b
      → AllCurrent codec s ws
      → AllCurrent codec t (wait_for r (begun b last_version) ws)
  unfolding begun
  begun-AllCurrent codec r s t ws last_version true m h u c j w e =
      IsCurrent-same (m.same_versions j) (c j w e)
  begun-AllCurrent codec r s t ws last_version false m h u c j w e =
      elim (put_cases (r.content_id == j) (r, last_version) w (get ws j)
        (sym (get-put ws r.content_id j (r, last_version)) ∙ e)) [
          | inl k ↦
              let id : r.content_id ≡ j = (==_iff r.content_id j).0 k.0 in
              subst (IsCurrent codec t j) k.1 (record {
                same_content = id;
                still_last =
                    h ∙ ap (λ i. last (versions_of s i)) id ∙ ap last (sym (m.same_versions j));
                changed = u;
              })
          | inr k ↦ IsCurrent-same (m.same_versions j) (c j w k)
        ]

  -- An outcome changes the versions of its own content only.
  others_same :
      {codec : Codec E} {r : Request} {s t : Store E} {o : Option (ContentVersion E)} (j : String)
      → Outcome codec r s o t
      → (r.content_id == j) ≡ false
      → versions_of t j ≡ versions_of s j
  others_same j (unchanged t u m) e = m.same_versions j
  others_same j (raised t u x m) e = m.same_versions j
  others_same {codec} {r} {s} j (stored t embedding u x a) e =
      a.added j
      ∙ ap
          (λ b.
            if b
            then versions_of s j
              ++ version_of codec r embedding (last (versions_of s r.content_id)) ∷ []
            else versions_of s j)
          e

  IsSame-store : (s : Store E) → IsSame s s
  IsSame-store s = record { same_versions = λ j. refl; same_queue = refl }

  -- The second step of a save that is current has an outcome of the store that it finds.
  end_save-Outcome :
      (codec : Codec E) (r : Request) (last_version : Option (ContentVersion E)) (s : Store E)
      → IsCurrent codec s r.content_id (r, last_version)
      → Outcome codec r s (end_save codec r last_version s).0 (end_save codec r last_version s).1
  unfolding end_save
  end_save-Outcome codec r last_version s c =
      saved-Outcome codec r last_version s s c.still_last (IsSame-store s)
        (ap (is_unchanged (codec.get_content_hash r.text)) (sym c.still_last) ∙ c.changed)
        (embed codec r codec.encode_chunks) refl

  ended-AllCurrent :
      (codec : Codec E) (r : Request) (s t : Store E) (ws : Waiting E)
      {o : Option (ContentVersion E)}
      → Outcome codec r s o t
      → AllCurrent codec s ws
      → AllCurrent codec t (remove ws r.content_id)
  ended-AllCurrent codec r s t ws out c j w e =
      let (other, found) =
        remove_cases (r.content_id == j) w (get ws j) (sym (get-remove ws r.content_id j) ∙ e) in
      IsCurrent-same (others_same j out other) (c j w found)

  begin_save-IsKept :
      (codec : Codec E) (r : Request) (s : Store E) (ws : Waiting E)
      → IsKept s
      → AllCurrent codec s ws
      → IsKept (begin_save codec r s).1
        × AllCurrent codec (begin_save codec r s).1 (wait_for r (begin_save codec r s).0 ws)
  unfolding begin_save open_block
  begin_save-IsKept codec r s ws k c =
      let m = open_block-IsSame r s in
      (
        IsKept-IsSame k m,
        begun-AllCurrent codec r s (open_block r s).1 ws (last (open_block r s).0.versions)
            (is_unchanged (codec.get_content_hash r.text) (last (open_block r s).0.versions)) m
            (ap last (versions-new_block r (get s.blocks r.content_id))) refl c,
      )

  end_save-IsKept :
      (codec : Codec E) (i : String) (r : Request) (last_version : Option (ContentVersion E))
      (s : Store E) (ws : Waiting E)
      → get ws i ≡ some (r, last_version)
      → IsKept s
      → AllCurrent codec s ws
      → IsKept (end_save codec r last_version s).1
        × AllCurrent codec (end_save codec r last_version s).1 (remove ws i)
  end_save-IsKept codec i r last_version s ws e k c =
      let now = c i (r, last_version) e in
      let out =
        end_save-Outcome codec r last_version s
          (subst (λ j. IsCurrent codec s j (r, last_version)) (sym now.same_content) now) in
      (
        IsKept-Outcome k out,
        subst (λ j. AllCurrent codec (end_save codec r last_version s).1 (remove ws j))
            now.same_content (ended-AllCurrent codec r s _ ws out c),
      )

  Reach-AllCurrent :
      {codec : Codec E} {s : Store E} {ws : Waiting E}
      → Reach codec s ws
      → IsKept s × AllCurrent codec s ws
  unfolding flush_batch row_of get
  Reach-AllCurrent (here content_index) =
      (record { queue = []; given = refl; numbered = λ j. tt; rows = λ j n. refl }, λ j w e. cc)
  Reach-AllCurrent {codec} (begins {s} {ws} h r e) =
      let (k, c) = Reach-AllCurrent h in begin_save-IsKept codec r s ws k c
  Reach-AllCurrent {codec} (ends {s} {ws} h i r last_version e) =
      let (k, c) = Reach-AllCurrent h in end_save-IsKept codec i r last_version s ws e k c

  -- After any interleaving of saves since a start on an empty database, where no two saves of one content
  -- overlap: the versions of each content in RAM are numbered 1, 2, 3 and so on, no two neighbours
  -- have the same hash, and when the queue has been flushed, the row of the table
  -- `content_versions` under a content and a number is that version in RAM, and no other key has
  -- a row.
  pub Reach-IsKept : {codec : Codec E} {s : Store E} {ws : Waiting E} → Reach codec s ws → IsKept s
  Reach-IsKept h = (Reach-AllCurrent h).0
