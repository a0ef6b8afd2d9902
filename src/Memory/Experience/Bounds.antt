-- ===== src/Memory/Experience/Bounds.antt =====
-- What every history of an index keeps to.
use mnemostroma.Prelude.{
  ℕ, ◌+◌, ◌-◌, ◌*◌, ◌≤◌, String, Bool, List, [], ◌∷◌, ◌++◌, arith, ◌==◌, string_eq, leb, length,
  length-drop, All, Bool-cases, inl, inr,
}
use mnemostroma.Prelude.Dict.{Dict, get, put}
use mnemostroma.Prelude.Integer.{ℤ}
use mnemostroma.Memory.Experience.{
  score_of, Cluster, new_cluster, capped, add_record, record_vec, record_emotion, decay, or_new,
  for_tags, update, record_vecs, update_emotion, apply_decay,
}

module _ {ℓ} {V : Type ℓ} where
  -- No more conflicts than sessions, and no list of vectors above the cap.
  pub record IsSound (cap : ℕ) (c : Cluster V) : Type 0 where
    pub few_conflicts : c.conflict_count ≤ c.session_count
    pub few_positive : length c.positive_vecs ≤ cap
    pub few_negative : length c.negative_vecs ≤ cap
    pub few_process : length c.process_vecs ≤ cap

  length-capped : (cap : ℕ) (target : List V) (vec : V) → length (capped cap target vec) ≤ cap
  unfolding capped
  length-capped cap target vec =
      let target' : List V = target ++ vec ∷ [] in
      ground (arith, length-drop (length target' - cap) target')

  add_record-IsSound :
      (cap : ℕ) (score_delta : ℤ) (is_conflict : Bool) (now : ℕ) (c : Cluster V)
      → IsSound cap c
      → IsSound cap (add_record score_delta is_conflict now c)
  unfolding add_record
  add_record-IsSound cap score_delta is_conflict now c h = record {
    few_conflicts = ground (arith, h.few_conflicts);
    few_positive = h.few_positive;
    few_negative = h.few_negative;
    few_process = h.few_process;
  }

  record_vec-IsSound :
      (cap : ℕ) (vec : V) (charge : String) (now : ℕ) (c : Cluster V)
      → IsSound cap c
      → IsSound cap (record_vec cap vec charge now c)
  unfolding record_vec
  record_vec-IsSound cap vec charge now c h =
      let f = h.few_conflicts in
      let p = h.few_positive in
      let n = h.few_negative in
      let q = h.few_process in
      elim (Bool-cases (charge == "positive")) [
        | inl e ↦ rw e (record {
          few_conflicts = f;
          few_positive = length-capped cap c.positive_vecs vec;
          few_negative = n;
          few_process = q;
        })
        | inr e ↦ rw e (elim (Bool-cases (charge == "negative")) [
          | inl e ↦ rw e (record {
            few_conflicts = f;
            few_positive = p;
            few_negative = length-capped cap c.negative_vecs vec;
            few_process = q;
          })
          | inr e ↦ rw e (elim (Bool-cases (charge == "process")) [
            | inl e ↦ rw e (record {
              few_conflicts = f;
              few_positive = p;
              few_negative = n;
              few_process = length-capped cap c.process_vecs vec;
            })
            | inr e ↦ rw e h
          ])
        ])
      ]

  record_emotion-IsSound :
      (cap : ℕ) (charge : String) (intensity now : ℕ) (c : Cluster V)
      → IsSound cap c
      → IsSound cap (record_emotion charge intensity now c)
  unfolding record_emotion
  record_emotion-IsSound cap charge intensity now c h = record {
    few_conflicts = h.few_conflicts;
    few_positive = h.few_positive;
    few_negative = h.few_negative;
    few_process = h.few_process;
  }

  decay-IsSound :
      (cap reduction now : ℕ) (c : Cluster V) → IsSound cap c → IsSound cap (decay reduction now c)
  unfolding decay
  decay-IsSound cap reduction now c h = record {
    few_conflicts = h.few_conflicts;
    few_positive = h.few_positive;
    few_negative = h.few_negative;
    few_process = h.few_process;
  }

  new_cluster-IsSound : (cap now : ℕ) → IsSound cap (new_cluster now)
  unfolding new_cluster
  new_cluster-IsSound cap now = record {
    few_conflicts = omega arith;
    few_positive = omega arith;
    few_negative = omega arith;
    few_process = omega arith;
  }

  -- Every cluster of the index is sound.
  abbrev pub AllSound : ℕ → Dict String (Cluster V) → Type 0
  AllSound cap clusters = All (λ (e : String × Cluster V). IsSound cap e.1) clusters

  AllSound-put :
      (cap : ℕ) (d : Dict String (Cluster V)) (k : String) (c : Cluster V)
      → AllSound cap d
      → IsSound cap c
      → AllSound cap (put d k c)
  unfolding put
  AllSound-put cap [] k c h s = (s, tt)
  AllSound-put cap ((j, w) ∷ d) k c h s = elim (Bool-cases (j == k)) [
    | inl e ↦ rw e (s, h.1)
    | inr e ↦ rw e (h.0, AllSound-put cap d k c h.1 s)
  ]

  or_new-IsSound :
      (cap now : ℕ) (d : Dict String (Cluster V)) (k : String)
      → AllSound cap d
      → IsSound cap (or_new now (get d k))
  unfolding get or_new
  or_new-IsSound cap now [] k h = new_cluster-IsSound cap now
  or_new-IsSound cap now ((j, w) ∷ d) k h = elim (Bool-cases (j == k)) [
    | inl e ↦ rw e h.0
    | inr e ↦ rw e (or_new-IsSound cap now d k h.1)
  ]

  for_tags-AllSound :
      (cap now : ℕ) (f : Cluster V → Cluster V)
      → ((c : Cluster V) → IsSound cap c → IsSound cap (f c))
      → (tags : List String) (d : Dict String (Cluster V)) → AllSound cap d
      → AllSound cap (for_tags now f tags d)
  unfolding for_tags
  for_tags-AllSound cap now f g [] d h = h
  for_tags-AllSound cap now f g (tag ∷ tags) d h =
      for_tags-AllSound cap now f g tags (put d tag (f (or_new now (get d tag)))) (
        AllSound-put cap d tag (f (or_new now (get d tag))) h
          (g (or_new now (get d tag)) (or_new-IsSound cap now d tag h)))

  apply_decay-AllSound :
      (cap threshold_days : ℕ) (reduction : ℕ → ℕ) (now : ℕ) (d : Dict String (Cluster V))
      → AllSound cap d
      → AllSound cap (apply_decay threshold_days reduction now d).1
  unfolding apply_decay
  apply_decay-AllSound cap threshold_days reduction now [] h = tt
  apply_decay-AllSound cap threshold_days reduction now ((tag, c) ∷ d) h =
      let rest = apply_decay-AllSound cap threshold_days reduction now d h.1 in
      elim (Bool-cases (leb (c.last_updated + threshold_days * 86400) now)) [
        | inl e ↦ rw e (decay-IsSound cap (reduction (now - c.last_updated)) now c h.0, rest)
        | inr e ↦ rw e (h.0, rest)
      ]

  -- A history of the operations of an index with a cap, from the empty index.
  pub data Reach (cap : ℕ) : Dict String (Cluster V) → Type ℓ where
    here : Reach cap []
    updated :
        {d : Dict String (Cluster V)} (tags : List String) (is_continuation is_conflict : Bool)
        (now : ℕ)
        → Reach cap d
        → Reach cap (update tags is_continuation is_conflict now d)
    recorded :
        {d : Dict String (Cluster V)} (tags : List String) (vec : V) (charge : String) (now : ℕ)
        → Reach cap d
        → Reach cap (record_vecs cap tags vec charge now d)
    felt :
        {d : Dict String (Cluster V)} (tags : List String) (charge : String) (intensity now : ℕ)
        → Reach cap d
        → Reach cap (update_emotion tags charge intensity now d)
    forgotten :
        {d : Dict String (Cluster V)} (threshold_days : ℕ) (reduction : ℕ → ℕ) (now : ℕ)
        → Reach cap d
        → Reach cap (apply_decay threshold_days reduction now d).1

  -- After any history of updates, vectors, emotions and decays of an index, no cluster has more conflicts
  -- than sessions, and none has more vectors of a charge than the cap.
  pub Reach-AllSound : {cap : ℕ} {d : Dict String (Cluster V)} → Reach cap d → AllSound cap d
  unfolding update record_vecs update_emotion
  Reach-AllSound here = tt
  Reach-AllSound {cap} (updated {d} tags is_continuation is_conflict now r) =
      for_tags-AllSound cap now (add_record (score_of is_continuation is_conflict) is_conflict now)
        (add_record-IsSound cap (score_of is_continuation is_conflict) is_conflict now) tags d
        (Reach-AllSound r)
  Reach-AllSound {cap} (recorded {d} tags vec charge now r) =
      for_tags-AllSound cap now (record_vec cap vec charge now)
        (record_vec-IsSound cap vec charge now) tags d (Reach-AllSound r)
  Reach-AllSound {cap} (felt {d} tags charge intensity now r) =
      for_tags-AllSound cap now (record_emotion charge intensity now)
        (record_emotion-IsSound cap charge intensity now) tags d (Reach-AllSound r)
  Reach-AllSound {cap} (forgotten {d} threshold_days reduction now r) =
      apply_decay-AllSound cap threshold_days reduction now d (Reach-AllSound r)
