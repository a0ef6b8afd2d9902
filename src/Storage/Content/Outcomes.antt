-- ===== src/Storage/Content/Outcomes.antt =====
-- What a save does, in each of its three outcomes.
use mathlib.Core.Path.{subst}
use mnemostroma.Prelude.{
  ℕ, ◌≡◌, refl, ◌∙◌, sym, ap, String, Bool, true, false, Option, none, some, List, [], ◌∷◌, ◌++◌,
  ◌==◌, ==_iff, nat_eq, string_eq, if◌then◌else◌,
}
use mnemostroma.Prelude.Dict.{get, put, get-put}
use mnemostroma.Storage.Content.{
  ContentVersion, ContentBlock, Item, content_block, content_version, Codec, Store, Request, last,
  new_block, label_or_next, find_label, get_content_label, open_block, version_of, add_item,
  add_version, enqueue, is_unchanged, embed, saved, begun, begin_save, end_save, rest_of_save, save,
}
use mnemostroma.Storage.Content.Versions.{versions_in, versions_of}

module _ {ℓ} {E : Type ℓ} where
  -- No version and no item of the queue is new.
  pub record IsSame (s s' : Store E) : Type ℓ where
    pub same_versions : (content_id : String) → versions_of s' content_id ≡ versions_of s content_id
    pub same_queue : s'.queued ≡ s.queued

  -- A version is new at the end of the versions of one content, and at the end of the queue stand its
  -- block and then the version.
  pub record IsAdded (r : Request) (v : ContentVersion E) (s s' : Store E) : Type ℓ where
    pub block : ContentBlock E
    pub added :
        (content_id : String)
        → versions_of s' content_id ≡ (
            if r.content_id == content_id
            then versions_of s content_id ++ v ∷ []
            else versions_of s content_id)
    pub queue :
        s'.queued
        ≡ enqueue
            (content_block r.content_id r.session_id r.content_type block.status
              ∷ content_version r.content_id v
              ∷ [])
            s.queued

  pub versions-new_block :
      (r : Request) (o : Option (ContentBlock E)) → (new_block r o).versions ≡ versions_in o
  unfolding new_block
  versions-new_block r none = refl
  versions-new_block r (some block) = refl

  if-same :
      (b : Bool) (x y : Option (ContentBlock E)) (z : List (ContentVersion E))
      → (b ≡ true → versions_in x ≡ z)
      → versions_in y ≡ z
      → versions_in (if b then x else y) ≡ z
  if-same true x y z f g = f refl
  if-same false x y z f g = g

  pub open_block-IsSame : (r : Request) (s : Store E) → IsSame s (open_block r s).1
  unfolding open_block
  open_block-IsSame r s = record {
    same_versions = λ j.
        ap versions_in (get-put s.blocks r.content_id j (new_block r (get s.blocks r.content_id)))
        ∙ if-same (r.content_id == j) (some (new_block r (get s.blocks r.content_id)))
            (get s.blocks j) (versions_in (get s.blocks j))
            (λ e.
              versions-new_block r (get s.blocks r.content_id)
              ∙ ap (λ k. versions_in (get s.blocks k)) ((==_iff r.content_id j).0 e))
            refl;
    same_queue = refl;
  }

  label_or_next-blocks :
      (o : Option ℕ) (s : Store E)
      → ((label_or_next o s).1.blocks ≡ s.blocks) × ((label_or_next o s).1.queued ≡ s.queued)
  unfolding label_or_next
  label_or_next-blocks none s = (refl, refl)
  label_or_next-blocks (some label) s = (refl, refl)

  add_item-blocks :
      (key : String × ℕ) (embedding : E) (s : Store E) (o : Option (List (ℕ × E)))
      → ((add_item key embedding s o).blocks ≡ s.blocks)
        × ((add_item key embedding s o).queued ≡ s.queued)
  unfolding add_item get_content_label
  add_item-blocks key embedding s none = (refl, refl)
  add_item-blocks key embedding s (some rows) = label_or_next-blocks (find_label s.cid_to_id key) s

  added_at :
      (r : Request) (v : ContentVersion E) (s : Store E) (block' : ContentBlock E)
      → block'.versions ≡ versions_of s r.content_id ++ v ∷ []
      → (j : String) (b : Bool) → (b ≡ true → r.content_id ≡ j)
      → versions_in (if b then some block' else get s.blocks j)
        ≡ (if b then versions_of s j ++ v ∷ [] else versions_of s j)
  added_at r v s block' h j true f = h ∙ ap (λ k. versions_of s k ++ v ∷ []) (f refl)
  added_at r v s block' h j false f = refl

  add_version-IsAdded :
      (r : Request) (block : ContentBlock E) (v : ContentVersion E) (s : Store E)
      → block.versions ≡ versions_of s r.content_id
      → IsAdded r v s (add_version r block v s)
  unfolding add_version
  add_version-IsAdded r block v s h =
      let block' : ContentBlock E = record block { versions = block.versions ++ v ∷ [] } in
      let items : List (Item E) =
        content_block r.content_id r.session_id r.content_type block.status
        ∷ content_version r.content_id v
        ∷ [] in
      let s' : Store E = record s {
        blocks = put s.blocks r.content_id block';
        queued = enqueue items s.queued;
      } in
      let same = add_item-blocks (r.content_id, v.version) v.embedding s' s.content_index in
      record {
        block = block;
        added = λ j.
            ap (λ d. versions_in (get d j)) same.0
            ∙ ap versions_in (get-put s.blocks r.content_id j block')
            ∙ added_at r v s block' (ap (λ vs. vs ++ v ∷ []) h) j (r.content_id == j)
                (==_iff r.content_id j).0;
        queue = same.1;
      }

  if-added :
      (b : Bool) {xs ys : List (ContentVersion E)} (v : ContentVersion E)
      → ys ≡ xs
      → (if b then ys ++ v ∷ [] else ys) ≡ (if b then xs ++ v ∷ [] else xs)
  if-added true v e = ap (λ zs. zs ++ v ∷ []) e
  if-added false v e = e

  IsSame-IsAdded :
      {r : Request} {v : ContentVersion E} {s t u : Store E}
      → IsSame s t
      → IsAdded r v t u
      → IsAdded r v s u
  IsSame-IsAdded {r} {v} m a = record {
    block = a.block;
    added = λ j. a.added j ∙ if-added (r.content_id == j) v (m.same_versions j);
    queue =
        a.queue
        ∙ ap
            (enqueue (
              content_block r.content_id r.session_id r.content_type a.block.status
              ∷ content_version r.content_id v
              ∷ []))
            m.same_queue;
  }

  -- The outcomes, with what is returned and left.
  pub data Outcome (codec : Codec E) (r : Request) (s : Store E)
      : Option (ContentVersion E) → Store E → Type ℓ where
    unchanged :
        (s' : Store E)
        → is_unchanged (codec.get_content_hash r.text) (last (versions_of s r.content_id)) ≡ true
        → IsSame s s'
        → Outcome codec r s (last (versions_of s r.content_id)) s'
    raised :
        (s' : Store E)
        → is_unchanged (codec.get_content_hash r.text) (last (versions_of s r.content_id)) ≡ false
        → embed codec r codec.encode_chunks ≡ none
        → IsSame s s'
        → Outcome codec r s none s'
    stored :
        (s' : Store E) (embedding : E)
        → is_unchanged (codec.get_content_hash r.text) (last (versions_of s r.content_id)) ≡ false
        → embed codec r codec.encode_chunks ≡ some embedding
        → IsAdded r (version_of codec r embedding (last (versions_of s r.content_id))) s s'
        → Outcome codec r s
            (some (version_of codec r embedding (last (versions_of s r.content_id))))
            s'

  pub saved-Outcome :
      (codec : Codec E) (r : Request) (last_version : Option (ContentVersion E)) (s t : Store E)
      → last_version ≡ last (versions_of s r.content_id)
      → IsSame s t
      → is_unchanged (codec.get_content_hash r.text) (last (versions_of s r.content_id)) ≡ false
      → (o : Option E) → embed codec r codec.encode_chunks ≡ o
      → Outcome codec r s (saved codec r last_version t o).0 (saved codec r last_version t o).1
  unfolding saved
  saved-Outcome codec r last_version s t h m u none e = raised t u e m
  saved-Outcome codec r last_version s t h m u (some embedding) e =
      let v : ContentVersion E = version_of codec r embedding last_version in
      let block : ContentBlock E = new_block r (get t.blocks r.content_id) in
      let same : v ≡ version_of codec r embedding (last (versions_of s r.content_id)) =
        ap (version_of codec r embedding) h in
      let a : IsAdded r v s (add_version r block v t) =
        IsSame-IsAdded m
          (add_version-IsAdded r block v t (versions-new_block r (get t.blocks r.content_id))) in
      subst (λ w. Outcome codec r s (some w) (add_version r block v t)) (sym same)
        (stored (add_version r block v t) embedding u e
          (subst (λ w. IsAdded r w s (add_version r block v t)) same a))

  decided :
      (codec : Codec E) (r : Request) (last_version : Option (ContentVersion E)) (s t : Store E)
      → last_version ≡ last (versions_of s r.content_id)
      → IsSame s t
      → (b : Bool)
      → is_unchanged (codec.get_content_hash r.text) (last (versions_of s r.content_id)) ≡ b
      → Outcome codec r s
          (rest_of_save codec r t (begun b last_version)).0
          (rest_of_save codec r t (begun b last_version)).1
  unfolding rest_of_save begun end_save
  decided codec r last_version s t h m true u =
      subst (λ v. Outcome codec r s v t) (sym h) (unchanged t u m)
  decided codec r last_version s t h m false u =
      saved-Outcome codec r last_version s t h m u (embed codec r codec.encode_chunks) refl

  -- A save that no other overlaps has one of three outcomes. When the text has the hash of the last version, that version is
  -- returned, and neither the versions of any content nor the queue change. When the encoder raises
  -- on the chunks of the text, the error goes through, and they do not change either. Otherwise the
  -- version made from the last one is returned, stands at the end of the versions of this content and
  -- of no other, and the queue gets the block and then the version, if there is a queue.
  pub save-Outcome :
      (codec : Codec E) (r : Request) (s : Store E)
      → Outcome codec r s (save codec r s).0 (save codec r s).1
  unfolding save begin_save open_block
  save-Outcome codec r s =
      let block : ContentBlock E = (open_block r s).0 in
      let h : block.versions ≡ versions_of s r.content_id =
        versions-new_block r (get s.blocks r.content_id) in
      decided codec r (last block.versions) s (open_block r s).1 (ap last h) (open_block-IsSame r s)
        (is_unchanged (codec.get_content_hash r.text) (last block.versions))
        (ap (λ vs. is_unchanged (codec.get_content_hash r.text) (last vs)) (sym h))
