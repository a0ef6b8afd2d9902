-- ===== src/Memory/Dissolver/Tests.antt =====
-- A concrete eviction. A vector is a number here.
use mnemostroma.Prelude.{
  ℕ, ◌≤◌, String, ◌≡◌, refl, ◌≢◌, ◌⊎◌, true, false, none, some, [], ◌∷◌, ◌++◌, string_eq, ◌==◌,
  ==_iff, All, length, drop, select, min, arith,
}
use mnemostroma.Prelude.Dict.{get, values}
use mnemostroma.Prelude.Distinct.{IsDistinct}
use mnemostroma.Memory.Labels.{no_labels}
use mnemostroma.Memory.Dissolver.{
  SessionBrief, Memory, Readings, can_evict, eviction_priority, evicted, evict_n_oldest,
}
use mnemostroma.Memory.Dissolver.Chosen.{IsKeyed, candidates, evicted_lem, evict_n_oldest_protects}
use mnemostroma.Memory.Dissolver.Rebuilt.{IsRebuilt, evict_n_oldest-IsRebuilt}

abbrev brief : SessionBrief ℕ
brief = record {
  session_id = "a";
  importance = "background";
  created_at = 1000;
  deadline_ts = none;
  urgency_expired = false;
  conflict_flag = false;
  intensity = 0;
  embedding = some 1;
  chunk_vectors = 5 ∷ [];
}

abbrev rule : SessionBrief ℕ
rule = record brief { session_id = "b"; importance = "principle" }

abbrev urgent : SessionBrief ℕ
urgent = record brief { session_id = "c"; deadline_ts = some 9000 }

abbrev memory : Memory ℕ
memory = record {
  has_index = true;
  ram_index = ("a", brief) ∷ ("b", rule) ∷ ("c", urgent) ∷ [];
  labels = no_labels;
  session_index = [];
}

abbrev readings : Readings
readings = record {
  now = 2000;
  ram_mb = 400;
  hard_limit_mb = 900;
  soft_limit_mb = 300;
  baseline_ready = true;
  baseline_mb = 50;
  session_window_size = 10;
}

memory-IsKeyed : IsKeyed memory.ram_index
unfolding get
memory-IsKeyed = (refl, (refl, (refl, tt)))

apart : (s t : String) → (s == t) ≡ false → s ≢ t
apart s t h = ground (arith, ==_iff s t)

memory-IsDistinct : IsDistinct memory.ram_index
memory-IsDistinct =
    ((apart "b" "a" refl, (apart "c" "a" refl, tt)), ((apart "c" "b" refl, tt), (tt, tt)))

evicted_lem_example :
    (length (evicted readings 2 memory)
      ≡ min 2 (length (select (can_evict readings) (values memory.ram_index))))
    × (evicted readings 2 memory ++ drop 2 (candidates readings memory)
        ≡ candidates readings memory)
    × All
        (λ x.
          All
            (λ y. eviction_priority 2000 x ≤ eviction_priority 2000 y)
            (drop 2 (candidates readings memory)))
        (evicted readings 2 memory)
evicted_lem_example = evicted_lem readings 2 memory

urgent_stays : can_evict readings urgent ≡ false
unfolding can_evict
urgent_stays = refl

urgent_here : get memory.ram_index "c" ≡ some urgent
unfolding get
urgent_here = refl

evict_n_oldest_protects_example : get (evict_n_oldest readings 2 memory).ram_index "c" ≡ some urgent
evict_n_oldest_protects_example =
    evict_n_oldest_protects readings 2 memory "c" urgent memory-IsKeyed urgent_here urgent_stays

evict_n_oldest-IsRebuilt_example :
    let m' = evict_n_oldest readings 2 memory in
    let gone = evicted readings 2 memory in
    ((gone ≡ []) × (m' ≡ memory))
    ⊎ ((gone ≢ [])
        × All (λ (sb : SessionBrief ℕ). get m'.ram_index sb.session_id ≡ none) gone
        × IsRebuilt m')
evict_n_oldest-IsRebuilt_example = evict_n_oldest-IsRebuilt readings 2 memory refl memory-IsDistinct
