-- ===== src/Storage/Content/Kept.antt =====
-- What is in RAM is what the database gets, and what a save does to that.
use mathlib.Core.Path.{subst}
use mnemostroma.Prelude.{
  ℕ, ◌+◌, ◌≡◌, refl, ◌∙◌, sym, ap, String, Bool, true, false, Option, none, some, List, [], ◌∷◌,
  ◌++◌, arith, ◌==◌, ==_iff, nat_eq, string_eq, if◌then◌else◌, is_some, length,
}
use mnemostroma.Storage.Content.{
  ContentVersion, Item, content_block, content_version, Codec, Store, Request, last, version_of,
  enqueue, Tables, is_row, row_of, insert_version, flush_item, flush_batch,
}
use mnemostroma.Storage.Content.Versions.{
  versions_of, find, Numbered, Numbered-snoc, next_version-last, Differs, Differs-unchanged,
  find-outside, find-snoc,
}
use mnemostroma.Storage.Content.Outcomes.{IsSame, IsAdded, Outcome, unchanged, raised, stored}

module _ {ℓ} {E : Type ℓ} where
  row_of-snoc :
      (rows : List (String × ContentVersion E)) (i : String) (v : ContentVersion E) (j : String)
      (n : ℕ)
      → row_of (rows ++ (i, v) ∷ []) j n ≡ (
          if is_some (row_of rows j n)
          then row_of rows j n
          else if is_row j n i v
          then some v
          else none)
  unfolding row_of
  row_of-snoc [] i v j n = refl
  row_of-snoc ((k, w) ∷ rows) i v j n = ground (arith, row_of-snoc rows i v j n)

  flush_batch-append :
      (xs ys : List (Item E)) (t : Tables E)
      → flush_batch (xs ++ ys) t ≡ flush_batch ys (flush_batch xs t)
  unfolding flush_batch
  flush_batch-append [] ys t = refl
  flush_batch-append (x ∷ xs) ys t = flush_batch-append xs ys (flush_item x t)

  abbrev pub no_tables : Tables E
  no_tables = record { content_blocks = []; content_versions = [] }

  -- The store after a start.
  abbrev pub new_store : Option (List (ℕ × E)) → Store E
  new_store content_index = record {
    blocks = [];
    queued = some [];
    content_index = content_index;
    id_to_cid = [];
    cid_to_id = [];
    next_content_label = 0;
  }

  -- The versions in RAM are numbered from 1, no two neighbours have one hash, and the table that the
  -- queue makes has under each key the version in RAM, and no other row.
  pub record IsKept (s : Store E) : Type ℓ where
    pub queue : List (Item E)
    pub given : s.queued ≡ some queue
    pub numbered : (content_id : String) → Numbered 1 (versions_of s content_id)
    pub rows :
        (content_id : String) (n : ℕ)
        → row_of (flush_batch queue no_tables).content_versions content_id n
          ≡ find n (versions_of s content_id)

  pub IsKept-IsSame : {s t : Store E} → IsKept s → IsSame s t → IsKept t
  IsKept-IsSame k m = record {
    queue = k.queue;
    given = m.same_queue ∙ k.given;
    numbered = λ j. subst (Numbered 1) (sym (m.same_versions j)) (k.numbered j);
    rows = λ j n. k.rows j n ∙ ap (find n) (sym (m.same_versions j));
  }

  insert_version-new :
      (i : String) (v : ContentVersion E) (rows : List (String × ContentVersion E))
      → row_of rows i v.version ≡ none
      → insert_version i v rows ≡ rows ++ (i, v) ∷ []
  unfolding insert_version
  insert_version-new i v rows h = ap (λ o. if is_some o then rows else rows ++ (i, v) ∷ []) h

  Numbered-if :
      (b : Bool) (vs ws : List (ContentVersion E))
      → (b ≡ true → Numbered 1 ws)
      → Numbered 1 vs
      → Numbered 1 (if b then ws else vs)
  Numbered-if true vs ws f h = f refl
  Numbered-if false vs ws f h = h

  find-if :
      (i j : String) (n : ℕ) (v : ContentVersion E) (vs : List (ContentVersion E))
      → (if is_some (find n vs) then find n vs else if is_row j n i v then some v else none)
        ≡ find n (if i == j then vs ++ v ∷ [] else vs)
  unfolding is_row
  find-if i j n v vs = ground (arith, find-snoc n vs v)

  IsKept-IsAdded :
      {r : Request} {v : ContentVersion E} {s t : Store E}
      → IsKept s
      → v.version ≡ 1 + length (versions_of s r.content_id)
      → Differs (last (versions_of s r.content_id)) v
      → IsAdded r v s t
      → IsKept t
  unfolding flush_batch flush_item enqueue
  IsKept-IsAdded {r} {v} {s} k e d a =
      let id : String = r.content_id in
      let before : List (ContentVersion E) = versions_of s id in
      let items : List (Item E) =
        content_block id r.session_id r.content_type a.block.status ∷ content_version id v ∷ [] in
      let rows : List (String × ContentVersion E) =
        (flush_batch k.queue no_tables).content_versions in
      let free : row_of rows id v.version ≡ none =
        k.rows id v.version ∙ find-outside 1 v.version before (k.numbered id) (omega (arith, e)) in
      let table : (flush_batch (k.queue ++ items) no_tables).content_versions
          ≡ rows ++ (id, v) ∷ [] =
        ap (λ (u : Tables E). u.content_versions) (flush_batch-append k.queue items no_tables)
        ∙ insert_version-new id v rows free in
      record {
        queue = k.queue ++ items;
        given = a.queue ∙ ap (enqueue items) k.given;
        numbered = λ j. subst (Numbered 1) (sym (a.added j)) (
            Numbered-if (id == j) (versions_of s j) (versions_of s j ++ v ∷ [])
              (λ q.
                subst (λ i. Numbered 1 (versions_of s i ++ v ∷ [])) ((==_iff id j).0 q)
                  (Numbered-snoc 1 before v (k.numbered id) e d))
              (k.numbered j));
        rows = λ j n.
            ap (λ l. row_of l j n) table
            ∙ row_of-snoc rows id v j n
            ∙ ap (λ o. if is_some o then o else if is_row j n id v then some v else none)
                (k.rows j n)
            ∙ find-if id j n v (versions_of s j)
            ∙ ap (find n) (sym (a.added j));
      }

  pub IsKept-Outcome :
      {codec : Codec E} {r : Request} {s t : Store E} {o : Option (ContentVersion E)}
      → IsKept s
      → Outcome codec r s o t
      → IsKept t
  unfolding version_of
  IsKept-Outcome k (unchanged t u m) = IsKept-IsSame k m
  IsKept-Outcome k (raised t u e m) = IsKept-IsSame k m
  IsKept-Outcome {codec} {r} {s} k (stored t embedding u e a) =
      let before : List (ContentVersion E) = versions_of s r.content_id in
      IsKept-IsAdded k (next_version-last before (k.numbered r.content_id))
        (Differs-unchanged (version_of codec r embedding (last before)) (last before) u) a
