-- ===== src/Memory/Dissolver/Rebuilt.antt =====
-- A rebuilt search index holds the summary vector of every session that is left in RAM, and nothing
-- of any other.
use mathlib.Core.Path.{subst}
use mnemostroma.Prelude.{
  ℕ, String, ◌≡◌, refl, ◌≢◌, ◌∙◌, sym, true, Option, none, some, is_some, List, [], ◌∷◌, ◌++◌,
  arith, nat_eq, string_eq, ==_iff, if◌then◌else◌, All, inl, inr, ◌⊎◌,
}
use mnemostroma.Prelude.Dict.{Dict, get, get-put}
use mnemostroma.Prelude.Distinct.{IsDistinct, IsDistinct-remove}
use mnemostroma.Memory.Labels.{no_labels, allocate_chunk_label, set_label}
use mnemostroma.Memory.Dissolver.{
  SessionBrief, Memory, Readings, add_chunks, add_summary, add_vectors, add_brief, add_items,
  rebuild_session_index, evict, evict_all, after_eviction, evicted, evict_n_oldest,
}
use mnemostroma.Memory.Dissolver.Chosen.{
  add_items-ram_index, after_eviction-ram_index, evict_all_takes,
}
use mnemostroma.Memory.Dissolver.Clean.{
  IsClean, add_chunks-IsClean, add_summary-IsClean, add_vectors-IsClean, add_items-IsClean,
  keys_present,
}

pub data IsIn {ℓ} {A : Type ℓ} (x : A) : List A → Type ℓ where
  first : {xs : List A} → IsIn x (x ∷ xs)
  later : {y : A} {xs : List A} → IsIn x xs → IsIn x (y ∷ xs)

IsIn-append {ℓ} : {A : Type ℓ} (x : A) (ys zs : List A) → IsIn x ys → IsIn x (ys ++ zs)
IsIn-append x [] zs h = elim h [ ]
IsIn-append x (y ∷ ys) zs first = first
IsIn-append x (y ∷ ys) zs (later h) = later (IsIn-append x ys zs h)

IsIn-last {ℓ} : {A : Type ℓ} (x : A) (ys : List A) → IsIn x (ys ++ x ∷ [])
IsIn-last x [] = first
IsIn-last x (y ∷ ys) = later (IsIn-last x ys)

module _ {ℓ} {V : Type ℓ} where
  -- The session has a label that leads back to it, and a row with that label and its vector.
  pub record IsCovered (sid : String) (v : V) (m : Memory V) : Type ℓ where
    pub label : ℕ
    pub forth : get m.labels.sid_to_id sid ≡ some label
    pub back : get m.labels.id_to_sid label ≡ some sid
    pub row : IsIn (label, v) m.session_index

  add_chunks-IsCovered :
      (ram : Dict String (SessionBrief V)) (other : String) (vs : List V) (sid : String) (v : V)
      (m : Memory V)
      → is_some (get ram other) ≡ true
      → IsClean ram m
      → IsCovered sid v m
      → IsCovered sid v (add_chunks other vs m)
  unfolding add_chunks allocate_chunk_label
  add_chunks-IsCovered ram other [] sid v m h c k = k
  add_chunks-IsCovered ram other (w ∷ ws) sid v m h c k =
      let next : ℕ = m.labels.next_session_label in
      add_chunks-IsCovered ram other ws sid v _ h (add_chunks-IsClean ram other (w ∷ []) m h c)
        (record {
          label = k.label;
          forth = k.forth;
          back =
              ground
                (arith, get-put m.labels.id_to_sid next k.label other, k.back, c.used sid k.label);
          row = IsIn-append _ m.session_index _ k.row;
        })

  add_summary_covers : (sid : String) (v : V) (m : Memory V) → IsCovered sid v (add_summary sid v m)
  unfolding add_summary set_label
  add_summary_covers sid v m =
      let next : ℕ = m.labels.next_session_label in
      record {
        label = next;
        forth = ground (arith, get-put m.labels.sid_to_id sid sid next, ==_iff sid sid);
        back = ground (arith, get-put m.labels.id_to_sid next next sid);
        row = IsIn-last _ m.session_index;
      }

  add_vectors-IsCovered :
      (ram : Dict String (SessionBrief V)) (other : String) (o : Option V) (ws : List V)
      (sid : String) (v : V) (m : Memory V)
      → other ≢ sid
      → is_some (get ram other) ≡ true
      → IsClean ram m
      → IsCovered sid v m
      → IsCovered sid v (add_vectors other o ws m)
  unfolding add_vectors add_summary set_label
  add_vectors-IsCovered ram other none ws sid v m ne h c k = k
  add_vectors-IsCovered ram other (some w) ws sid v m ne h c k =
      let next : ℕ = m.labels.next_session_label in
      add_chunks-IsCovered ram other ws sid v (add_summary other w m) h
        (add_summary-IsClean ram other w m h c)
        (record {
          label = k.label;
          forth =
              ground
                (arith, get-put m.labels.sid_to_id other sid next, ==_iff other sid, ne, k.forth);
          back =
              ground
                (arith, get-put m.labels.id_to_sid next k.label other, k.back, c.used sid k.label);
          row = IsIn-append _ m.session_index _ k.row;
        })

  add_items_keeps :
      (ram items : Dict String (SessionBrief V)) (sid : String) (v : V) (m : Memory V)
      → All (λ e. is_some (get ram e.0) ≡ true) items
      → All (λ e. e.0 ≢ sid) items
      → IsClean ram m
      → IsCovered sid v m
      → IsCovered sid v (add_items items m)
  unfolding add_items add_brief
  add_items_keeps ram [] sid v m h ne c k = k
  add_items_keeps ram ((other, sb) ∷ items) sid v m h ne c k =
      add_items_keeps ram items sid v (add_brief other sb m) h.1 ne.1
        (add_vectors-IsClean ram other sb.embedding sb.chunk_vectors m h.0 c)
        (add_vectors-IsCovered ram other sb.embedding sb.chunk_vectors sid v m ne.0 h.0 c k)

  add_vectors_covers :
      (ram : Dict String (SessionBrief V)) (sid : String) (v : V) (vs : List V) (m : Memory V)
      → is_some (get ram sid) ≡ true
      → IsClean ram m
      → IsCovered sid v (add_vectors sid (some v) vs m)
  unfolding add_vectors
  add_vectors_covers ram sid v vs m h c =
      add_chunks-IsCovered ram sid vs sid v (add_summary sid v m) h
        (add_summary-IsClean ram sid v m h c) (add_summary_covers sid v m)

  -- What a rebuild owes to one session, when it has an embedding.
  abbrev pub IsServedBy : Memory V → String → Option V → Type ℓ
  IsServedBy m sid none = Unit
  IsServedBy m sid (some v) = IsCovered sid v m

  abbrev pub IsServed : Memory V → String × SessionBrief V → Type ℓ
  IsServed m (sid, sb) = IsServedBy m sid sb.embedding

  add_vectors-IsServedBy :
      (ram items : Dict String (SessionBrief V)) (sid : String) (o : Option V) (vs : List V)
      (m : Memory V)
      → All (λ e. is_some (get ram e.0) ≡ true) items
      → All (λ e. e.0 ≢ sid) items
      → is_some (get ram sid) ≡ true
      → IsClean ram m
      → IsServedBy (add_items items (add_vectors sid o vs m)) sid o
  add_vectors-IsServedBy ram items sid none vs m hs ne h c = tt
  add_vectors-IsServedBy ram items sid (some v) vs m hs ne h c =
      add_items_keeps ram items sid v (add_vectors sid (some v) vs m) hs ne
        (add_vectors-IsClean ram sid (some v) vs m h c) (add_vectors_covers ram sid v vs m h c)

  add_items-IsServed :
      (ram items : Dict String (SessionBrief V)) (m : Memory V)
      → All (λ e. is_some (get ram e.0) ≡ true) items
      → IsDistinct items
      → IsClean ram m
      → All (IsServed (add_items items m)) items
  unfolding add_items add_brief
  add_items-IsServed ram [] m h d c = tt
  add_items-IsServed ram ((sid, sb) ∷ items) m h d c = (
    add_vectors-IsServedBy ram items sid sb.embedding sb.chunk_vectors m h.1 d.0 h.0 c,
    add_items-IsServed ram items (add_brief sid sb m) h.1 d.1
        (add_vectors-IsClean ram sid sb.embedding sb.chunk_vectors m h.0 c),
  )

  evict_all-IsDistinct :
      (sbs : List (SessionBrief V)) (m : Memory V)
      → IsDistinct m.ram_index
      → IsDistinct (evict_all sbs m).ram_index
  unfolding evict_all evict
  evict_all-IsDistinct [] m h = h
  evict_all-IsDistinct (sb ∷ sbs) m h =
      evict_all-IsDistinct sbs (evict sb m) (IsDistinct-remove m.ram_index sb.session_id h)

  -- The rows and labels are those of the sessions that are in RAM.
  pub record IsRebuilt (m : Memory V) : Type ℓ where
    pub clean : IsClean m.ram_index m
    pub served : All (IsServed m) m.ram_index

  add_items-IsRebuilt :
      (m : Memory V)
      → IsDistinct m.ram_index
      → IsRebuilt (add_items m.ram_index (record m { labels = no_labels; session_index = [] }))
  unfolding get
  add_items-IsRebuilt m d =
      let ram : Dict String (SessionBrief V) = m.ram_index in
      let start : Memory V = record m { labels = no_labels; session_index = [] } in
      let none_yet : IsClean ram start = record {
        leads = λ sid l e. cc;
        used = λ sid l e. cc;
        rows = tt;
      } in
      let same : ram ≡ (add_items ram start).ram_index = sym (add_items-ram_index ram start) in
      record {
        clean =
            subst (λ r. IsClean r (add_items ram start)) same
              (add_items-IsClean ram ram start (keys_present ram) none_yet);
        served =
            subst (λ r. All (IsServed (add_items ram start)) r) same
              (add_items-IsServed ram ram start (keys_present ram) d none_yet);
      }

  rebuild-IsRebuilt :
      (m : Memory V)
      → m.has_index ≡ true
      → IsDistinct m.ram_index
      → IsRebuilt (rebuild_session_index m)
  unfolding rebuild_session_index
  rebuild-IsRebuilt m e d =
      let all : Memory V =
        add_items m.ram_index (record m { labels = no_labels; session_index = [] }) in
      subst (λ b. IsRebuilt (if b then all else m)) (sym e) (add_items-IsRebuilt m d)

  evict_all-has_index :
      (sbs : List (SessionBrief V)) (m : Memory V) → (evict_all sbs m).has_index ≡ m.has_index
  unfolding evict_all evict
  evict_all-has_index [] m = refl
  evict_all-has_index (sb ∷ sbs) m = evict_all-has_index sbs (evict sb m)

  -- What an eviction of the given sessions owes.
  abbrev IsEvicted : List (SessionBrief V) → Memory V → Memory V → Type ℓ
  IsEvicted gone m m' =
      ((gone ≡ []) × (m' ≡ m))
      ⊎ ((gone ≢ [])
          × All (λ (sb : SessionBrief V). get m'.ram_index sb.session_id ≡ none) gone
          × IsRebuilt m')

  after_eviction-IsEvicted :
      (sbs : List (SessionBrief V)) (m : Memory V)
      → m.has_index ≡ true
      → IsDistinct m.ram_index
      → IsEvicted sbs m (after_eviction sbs m)
  unfolding after_eviction
  after_eviction-IsEvicted [] m e d = inl (refl, refl)
  after_eviction-IsEvicted (sb ∷ sbs) m e d = inr (
    (λ q. cc),
    subst (λ ram. All (λ (x : SessionBrief V). get ram x.session_id ≡ none) (sb ∷ sbs))
        (sym (after_eviction-ram_index (sb ∷ sbs) m)) (evict_all_takes (sb ∷ sbs) m),
    rebuild-IsRebuilt (evict_all (sb ∷ sbs) m) (evict_all-has_index (sb ∷ sbs) m ∙ e)
        (evict_all-IsDistinct (sb ∷ sbs) m d),
  )

  -- Where there is a search index: an eviction that chooses nobody changes nothing. After one that
  -- chooses somebody, every chosen session has left the RAM index; every label and every row of
  -- the search index belongs to a session that is still in RAM, and every such session that has an
  -- embedding has a label that leads back to it and a row with that label and that embedding.
  pub evict_n_oldest-IsRebuilt :
      (r : Readings) (n : ℕ) (m : Memory V)
      → m.has_index ≡ true
      → IsDistinct m.ram_index
      → let m' = evict_n_oldest r n m in
        let gone = evicted r n m in
        ((gone ≡ []) × (m' ≡ m))
        ⊎ ((gone ≢ [])
            × All (λ (sb : SessionBrief V). get m'.ram_index sb.session_id ≡ none) gone
            × IsRebuilt m')
  unfolding evict_n_oldest
  evict_n_oldest-IsRebuilt r n m e d = after_eviction-IsEvicted (evicted r n m) m e d
