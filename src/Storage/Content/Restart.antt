-- ===== src/Storage/Content/Restart.antt =====
-- What the first save of a content after a restart comes to.
use mnemostroma.Prelude.{
  ◌≡◌, ◌∙◌, ap, String, true, Option, some, List, [], ◌∷◌, ◌++◌, nat_eq, string_eq, if◌then◌else◌,
  is_some,
}
use mnemostroma.Prelude.Dict.{get}
use mnemostroma.Storage.Content.{
  ContentVersion, Item, content_block, content_version, Codec, Store, Request, last, version_of,
  enqueue, save, Tables, row_of, insert_version, flush_item, flush_batch, next_version,
}
use mnemostroma.Storage.Content.Versions.{versions_in, versions_of, items_of}
use mnemostroma.Storage.Content.Outcomes.{Outcome, unchanged, raised, stored, save-Outcome}

module _ {ℓ} {E : Type ℓ} where
  insert_version-taken :
      (i : String) (v : ContentVersion E) (rows : List (String × ContentVersion E))
      → is_some (row_of rows i v.version) ≡ true
      → insert_version i v rows ≡ rows
  unfolding insert_version
  insert_version-taken i v rows h = ap (λ b. if b then rows else rows ++ (i, v) ∷ []) h

  rows_kept :
      {codec : Codec E} {r : Request} {s t : Store E} {o : Option (ContentVersion E)} (u : Tables E)
      → Outcome codec r s o t
      → s.queued ≡ some []
      → versions_of s r.content_id ≡ []
      → is_some (row_of u.content_versions r.content_id 1) ≡ true
      → (flush_batch (items_of t.queued) u).content_versions ≡ u.content_versions
  unfolding flush_batch flush_item enqueue version_of next_version
  rows_kept {codec} {r} {s} u (unchanged t x m) q h p =
      ap (λ o. (flush_batch (items_of o) u).content_versions) (m.same_queue ∙ q)
  rows_kept {codec} {r} {s} u (raised t x e m) q h p =
      ap (λ o. (flush_batch (items_of o) u).content_versions) (m.same_queue ∙ q)
  rows_kept {codec} {r} {s} u (stored t embedding x e a) q h p =
      let v : ContentVersion E = version_of codec r embedding (last (versions_of s r.content_id)) in
      let items : List (Item E) =
        content_block r.content_id r.session_id r.content_type a.block.status
        ∷ content_version r.content_id v
        ∷ [] in
      ap (λ o. (flush_batch (items_of o) u).content_versions) (a.queue ∙ ap (enqueue items) q)
      ∙ insert_version-taken r.content_id v u.content_versions (
          ap (λ n. is_some (row_of u.content_versions r.content_id n))
            (ap (λ vs. next_version (last vs)) h)
          ∙ p)

  -- A manager that has just started has no blocks: it does not load those of the database. So the first
  -- save of a content after a restart is lost whenever the table already has a first version
  -- of it: for any text, and whatever the save returns, the table of versions is the same after
  -- the flush of what was queued.
  pub save_after_restart :
      (codec : Codec E) (r : Request) (s : Store E) (t : Tables E)
      → s.blocks ≡ []
      → s.queued ≡ some []
      → is_some (row_of t.content_versions r.content_id 1) ≡ true
      → (flush_batch (items_of (save codec r s).1.queued) t).content_versions ≡ t.content_versions
  unfolding get
  save_after_restart codec r s t b q h =
      rows_kept t (save-Outcome codec r s) q (ap (λ d. versions_in (get d r.content_id)) b) h
