-- ===== src/Memory/Dissolver.antt =====
-- memory/dissolver.py: the eviction of sessions from RAM. A pass is one step: after the flush it
-- awaits nothing. Its clock is read once, in seconds, and the process memory once, in MB. The
-- intensity of a session is in thousandths, and a priority is an exact number in place of a float:
-- the tenths of the weight, times the thousandths, times the seconds until 90 days of age.
pub mod Chosen
pub mod Clean
pub mod Rebuilt
mod Tests
use mnemostroma.Prelude.{
  ℕ, zero, suc, ◌+◌, ◌-◌, ◌*◌, ◌/◌, String, Bool, true, false, not, ◌&&◌, Option, none, some, List,
  [], ◌∷◌, ◌++◌, ◌==◌, nat_eq, string_eq, leb, ltb, if◌then◌else◌, length,
}
use mnemostroma.Prelude.Dict.{Dict, get, put, remove, values}
use mnemostroma.Prelude.Sort.{sort}
use mnemostroma.Memory.Labels.{
  Labels, no_labels, allocate_chunk_label, set_label, release_session_labels,
}

-- The fields of a session that an eviction reads. `V` is a vector.
pub record SessionBrief {ℓ} (V : Type ℓ) : Type ℓ where
  pub session_id : String
  pub importance : String
  pub created_at : ℕ
  pub deadline_ts : Option ℕ
  pub urgency_expired : Bool
  pub conflict_flag : Bool
  pub intensity : ℕ
  pub embedding : Option V
  pub chunk_vectors : List V

-- What an eviction changes: the RAM index, the labels, and the rows of the search matrix.
-- `has_index` is that there is a matrix: without one, `session_index` is never read.
pub record Memory {ℓ} (V : Type ℓ) : Type ℓ where
  pub has_index : Bool
  pub ram_index : Dict String (SessionBrief V)
  pub labels : Labels
  pub session_index : List (ℕ × V)

-- The readings and limits of a pass.
pub record Readings : Type 0 where
  pub now : ℕ
  pub ram_mb : ℕ
  pub hard_limit_mb : ℕ
  pub soft_limit_mb : ℕ
  pub baseline_ready : Bool
  pub baseline_mb : ℕ
  pub session_window_size : ℕ

importance_weight : String → ℕ
importance_weight importance =
    if importance == "principle"
    then 10
    else if importance == "critical"
    then 9
    else if importance == "important"
    then 6
    else 3

-- How many sessions `check_and_evict` asks to be evicted, and `none` when it asks for nothing.
pub to_evict : Readings → ℕ → Option ℕ
to_evict r current_count =
    if ltb (r.session_window_size * 8) (current_count * 10)
    then some ((current_count * 10 - r.session_window_size * 7) / 10)
    else if r.baseline_ready
    then if ltb (r.soft_limit_mb + r.baseline_mb) r.ram_mb
      then some (if leb 1 (current_count / 10) then current_count / 10 else 1)
      else none
    else none

module _ {ℓ} {V : Type ℓ} where
  -- 90 days are 7776000 seconds. A session from the future counts as younger than new.
  unfoldable pub eviction_priority : ℕ → SessionBrief V → ℕ
  unfolding importance_weight
  eviction_priority now sb =
      importance_weight sb.importance * (1000 + sb.intensity) * (7776000 + sb.created_at - now)

  pub has_live_deadline : ℕ → SessionBrief V → Bool
  has_live_deadline now sb = elim sb.deadline_ts [
    | none ↦ false
    | some ts ↦ not sb.urgency_expired && ltb now ts
  ]

  unfoldable pub can_evict : Readings → SessionBrief V → Bool
  unfolding has_live_deadline
  can_evict r sb =
      if sb.importance == "principle"
      then false
      else if has_live_deadline r.now sb
      then false
      else if sb.conflict_flag
      then false
      else if sb.importance == "critical"
      then if ltb (r.ram_mb * 10) (r.hard_limit_mb * 9) then false else true
      else true

  -- The loop over the sorted sessions, which stops at `n`: the sessions that it evicts.
  pub chosen : Readings → ℕ → List (SessionBrief V) → List (SessionBrief V)
  chosen r n [] = []
  chosen r n (sb ∷ sessions) = elim n [
    | zero ↦ []
    | suc m ↦ elim (can_evict r sb) [
      | false ↦ chosen r (suc m) sessions
      | true ↦ sb ∷ chosen r m sessions
    ]
  ]

  -- The body of that loop, for a session that it evicts.
  pub evict : SessionBrief V → Memory V → Memory V
  evict sb m = record m {
    ram_index = remove m.ram_index sb.session_id;
    labels = (release_session_labels sb.session_id m.labels).1;
  }

  pub evict_all : List (SessionBrief V) → Memory V → Memory V
  unfolding evict
  evict_all [] m = m
  evict_all (sb ∷ sbs) m = evict_all sbs (evict sb m)

  -- The chunk vectors of one session, as `_rebuild_session_index` adds them.
  pub add_chunks : String → List V → Memory V → Memory V
  add_chunks sid [] m = m
  add_chunks sid (v ∷ vs) m =
      let (label, labels) = allocate_chunk_label sid m.labels in
      add_chunks sid vs
        (record m { labels = labels; session_index = m.session_index ++ (label, v) ∷ [] })

  -- The summary vector of one session.
  pub add_summary : String → V → Memory V → Memory V
  unfolding set_label
  add_summary sid v m =
      let label : ℕ = m.labels.next_session_label in
      let taken : Labels = record m.labels { next_session_label = label + 1 } in
      record m {
        labels = (set_label sid (label, taken)).1;
        session_index = m.session_index ++ (label, v) ∷ [];
      }

  pub add_vectors : String → Option V → List V → Memory V → Memory V
  unfolding add_chunks add_summary
  add_vectors sid none chunk_vectors m = m
  add_vectors sid (some v) chunk_vectors m = add_chunks sid chunk_vectors (add_summary sid v m)

  pub add_brief : String → SessionBrief V → Memory V → Memory V
  unfolding add_vectors
  add_brief sid sb m = add_vectors sid sb.embedding sb.chunk_vectors m

  pub add_items : Dict String (SessionBrief V) → Memory V → Memory V
  unfolding add_brief
  add_items [] m = m
  add_items ((sid, sb) ∷ items) m = add_items items (add_brief sid sb m)

  pub rebuild_session_index : Memory V → Memory V
  unfolding add_items
  rebuild_session_index m =
      if m.has_index
      then add_items m.ram_index (record m { labels = no_labels; session_index = [] })
      else m

  -- The index is rebuilt only when something has been evicted.
  pub after_eviction : List (SessionBrief V) → Memory V → Memory V
  unfolding evict_all rebuild_session_index
  after_eviction [] m = m
  after_eviction (sb ∷ sbs) m = rebuild_session_index (evict_all (sb ∷ sbs) m)

  pub evicted : Readings → ℕ → Memory V → List (SessionBrief V)
  unfolding chosen
  evicted r n m = chosen r n (sort (eviction_priority r.now) (values m.ram_index))

  pub evict_n_oldest : Readings → ℕ → Memory V → Memory V
  unfolding evicted after_eviction
  evict_n_oldest r n m = after_eviction (evicted r n m) m

  pub check_and_evict : Readings → Memory V → Memory V
  unfolding evict_n_oldest to_evict
  check_and_evict r m = elim (to_evict r (length m.ram_index)) [
    | none ↦ m
    | some n ↦ evict_n_oldest r n m
  ]
