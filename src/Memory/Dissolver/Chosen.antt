-- ===== src/Memory/Dissolver/Chosen.antt =====
-- Which sessions an eviction takes, and that it leaves the protected ones alone.
use mnemostroma.Prelude.{
  ℕ, zero, suc, ◌+◌, ◌-◌, ◌*◌, ◌/◌, ◌≤◌, String, ◌≡◌, refl, ◌≢◌, ◌∙◌, ap, Bool, true, false, Option,
  none, some, List, [], ◌∷◌, ◌++◌, arith, string_eq, ==_iff, ==_refl, length, All, All-take, select,
  take, drop, length-take, min, Bool-cases, take-append-drop, ◌<◌, ◌↔◌, inl, inr, ◌⊎◌,
}
use mnemostroma.Prelude.Dict.{Dict, get, values, get-remove}
use mnemostroma.Prelude.Sort.{
  sort, All-sort, All-select, All-map, sort-IsSorted, select-IsSorted, take_below_drop,
  length-select-sort,
}
use mnemostroma.Memory.Dissolver.{
  SessionBrief, Memory, Readings, eviction_priority, can_evict, has_live_deadline, chosen, evict,
  evict_all, add_chunks, add_summary, add_vectors, add_brief, add_items, rebuild_session_index,
  after_eviction, evicted, evict_n_oldest, to_evict,
}

module _ {ℓ} {V : Type ℓ} where
  -- Every session stands under its own id.
  abbrev pub IsKeyed : Dict String (SessionBrief V) → Type ℓ
  IsKeyed d = All (λ sb. get d sb.session_id ≡ some sb) (values d)

  chosen_lem :
      (r : Readings) (n : ℕ) (sbs : List (SessionBrief V))
      → chosen r n sbs ≡ take n (select (can_evict r) sbs)
  unfolding chosen
  chosen_lem r zero [] = refl
  chosen_lem r (suc n) [] = refl
  chosen_lem r zero (sb ∷ sbs) = refl
  chosen_lem r (suc n) (sb ∷ sbs) = elim (Bool-cases (can_evict r sb)) [
    | inl e ↦ rw (e, chosen) (ap (λ rest. sb ∷ rest) (chosen_lem r n sbs))
    | inr e ↦ rw (e, chosen) (chosen_lem r (suc n) sbs)
  ]

  -- The sessions that may be evicted, the first to go in front.
  abbrev pub candidates : Readings → Memory V → List (SessionBrief V)
  candidates r m = select (can_evict r) (sort (eviction_priority r.now) (values m.ram_index))

  -- A pass for `n` evicts `n` sessions, or all that it may when they are fewer, and none of them
  -- has a higher priority than an evictable session that stays.
  pub evicted_lem :
      (r : Readings) (n : ℕ) (m : Memory V)
      → (length (evicted r n m) ≡ min n (length (select (can_evict r) (values m.ram_index))))
        × (evicted r n m ++ drop n (candidates r m) ≡ candidates r m)
        × All
            (λ x.
              All
                (λ y. eviction_priority r.now x ≤ eviction_priority r.now y)
                (drop n (candidates r m)))
            (evicted r n m)
  unfolding evicted
  evicted_lem r n m =
      let sorted = sort (eviction_priority r.now) (values m.ram_index) in
      rw (chosen_lem r n sorted) (
        length-take n (candidates r m)
            ∙ ap (min n)
                (length-select-sort (eviction_priority r.now) (can_evict r) (values m.ram_index)),
        take-append-drop n (candidates r m),
        take_below_drop (eviction_priority r.now) n (candidates r m) (
            select-IsSorted (eviction_priority r.now) (can_evict r) sorted
              (sort-IsSorted (eviction_priority r.now) (values m.ram_index))),
      )

  All-evicted :
      (P : SessionBrief V → Type ℓ) (r : Readings) (n : ℕ) (m : Memory V)
      → All P (values m.ram_index)
      → All (λ sb. P sb × (can_evict r sb ≡ true)) (evicted r n m)
  unfolding evicted
  All-evicted P r n m h =
      rw (chosen_lem r n (sort (eviction_priority r.now) (values m.ram_index))) (
        All-take _ n _ (
          All-select P (can_evict r) _
            (All-sort P (eviction_priority r.now) (values m.ram_index) h)))

  evict_all_keeps :
      (sid : String) (sbs : List (SessionBrief V)) (m : Memory V)
      → All (λ sb. sb.session_id ≢ sid) sbs
      → get (evict_all sbs m).ram_index sid ≡ get m.ram_index sid
  unfolding evict_all evict
  evict_all_keeps sid [] m h = refl
  evict_all_keeps sid (sb ∷ sbs) m h = ground (
    arith,
    evict_all_keeps sid sbs (evict sb m) h.1,
    get-remove m.ram_index sb.session_id sid,
    ==_iff sb.session_id sid,
    h.0,
  )

  add_chunks-ram_index :
      (sid : String) (vs : List V) (m : Memory V) → (add_chunks sid vs m).ram_index ≡ m.ram_index
  unfolding add_chunks
  add_chunks-ram_index sid [] m = refl
  add_chunks-ram_index sid (v ∷ vs) m = add_chunks-ram_index sid vs _

  add_vectors-ram_index :
      (sid : String) (o : Option V) (vs : List V) (m : Memory V)
      → (add_vectors sid o vs m).ram_index ≡ m.ram_index
  unfolding add_vectors add_summary
  add_vectors-ram_index sid none vs m = refl
  add_vectors-ram_index sid (some v) vs m = add_chunks-ram_index sid vs (add_summary sid v m)

  pub add_items-ram_index :
      (items : Dict String (SessionBrief V)) (m : Memory V)
      → (add_items items m).ram_index ≡ m.ram_index
  unfolding add_items add_brief
  add_items-ram_index [] m = refl
  add_items-ram_index ((sid, sb) ∷ items) m =
      add_items-ram_index items (add_brief sid sb m)
      ∙ add_vectors-ram_index sid sb.embedding sb.chunk_vectors m

  rebuild-ram_index :
      (m : Memory V) (b : Bool)
      → m.has_index ≡ b
      → (rebuild_session_index m).ram_index ≡ m.ram_index
  unfolding rebuild_session_index
  rebuild-ram_index m true e = rw e (add_items-ram_index m.ram_index _)
  rebuild-ram_index m false e = rw e refl

  pub after_eviction-ram_index :
      (sbs : List (SessionBrief V)) (m : Memory V)
      → (after_eviction sbs m).ram_index ≡ (evict_all sbs m).ram_index
  unfolding after_eviction evict_all
  after_eviction-ram_index [] m = refl
  after_eviction-ram_index (sb ∷ sbs) m = rebuild-ram_index (evict_all (sb ∷ sbs) m) _ refl

  evict_all_absent :
      (sid : String) (sbs : List (SessionBrief V)) (m : Memory V)
      → get m.ram_index sid ≡ none
      → get (evict_all sbs m).ram_index sid ≡ none
  unfolding evict_all evict
  evict_all_absent sid [] m h = h
  evict_all_absent sid (sb ∷ sbs) m h =
      evict_all_absent sid sbs (evict sb m)
        (ground (arith, get-remove m.ram_index sb.session_id sid, h))

  -- Every session of an eviction has left the RAM index.
  pub evict_all_takes :
      (sbs : List (SessionBrief V)) (m : Memory V)
      → All (λ (sb : SessionBrief V). get (evict_all sbs m).ram_index sb.session_id ≡ none) sbs
  unfolding evict_all evict
  evict_all_takes [] m = tt
  evict_all_takes (sb ∷ sbs) m = (
    evict_all_absent sb.session_id sbs (evict sb m)
        (ground (arith, get-remove m.ram_index sb.session_id sb.session_id, ==_refl sb.session_id)),
    evict_all_takes sbs (evict sb m),
  )

  -- A session that may not be evicted stays in RAM, as it was, whatever the pass asks for.
  pub evict_n_oldest_protects :
      (r : Readings) (n : ℕ) (m : Memory V) (sid : String) (sb : SessionBrief V)
      → IsKeyed m.ram_index
      → get m.ram_index sid ≡ some sb
      → can_evict r sb ≡ false
      → get (evict_n_oldest r n m).ram_index sid ≡ some sb
  unfolding evict_n_oldest
  evict_n_oldest_protects r n m sid sb keyed here kept =
      let safe : All (λ x. x.session_id ≢ sid) (evicted r n m) =
        All-map (evicted r n m) (λ x h same. ground (arith, h, same, here, kept))
          (All-evicted (λ x. get m.ram_index x.session_id ≡ some x) r n m keyed) in
      ap (λ d. get d sid) (after_eviction-ram_index (evicted r n m) m)
      ∙ evict_all_keeps sid (evicted r n m) m safe
      ∙ here

  -- What protects a session: being a principle, a deadline ahead, a conflict, and for a critical
  -- one, process memory below nine tenths of the hard limit. Every other session may go.
  pub can_evict_lem :
      (r : Readings) (sb : SessionBrief V)
      → can_evict r sb ≡ false ↔ (
          (sb.importance ≡ "principle")
          ⊎ (has_live_deadline r.now sb ≡ true)
          ⊎ (sb.conflict_flag ≡ true)
          ⊎ ((sb.importance ≡ "critical") × (r.ram_mb * 10 < r.hard_limit_mb * 9)))
  unfolding can_evict
  can_evict_lem r sb =
      ground (arith, ==_iff sb.importance "principle", ==_iff sb.importance "critical")

-- With a window of at least nine sessions, a pass over more than four fifths of it asks for at least
-- one session and for no more than there are, and what would be left is seven tenths of the
-- window, rounded up.
pub to_evict_lem :
    (r : Readings) (count : ℕ)
    → 9 ≤ r.session_window_size
    → r.session_window_size * 8 < count * 10
    → (n : ℕ) × (to_evict r count ≡ some n)
      × (1 ≤ n)
      × (n ≤ count)
      × (r.session_window_size * 7 ≤ (count - n) * 10)
      × ((count - n) * 10 < r.session_window_size * 7 + 10)
unfolding to_evict
to_evict_lem r count h k =
    let n : ℕ = (count * 10 - r.session_window_size * 7) / 10 in
    (n, ground arith, omega arith, omega arith, omega arith, omega arith)
