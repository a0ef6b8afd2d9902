-- ===== src/Memory/Experience/Tests.antt =====
-- An index with one tag that is praised, and what time makes of it.
use mnemostroma.Prelude.{
  ℕ, ◌+◌, ◌≡◌, refl, String, false, Option, none, some, List, [], ◌∷◌, arith, string_eq,
}
use mnemostroma.Prelude.Dict.{Dict, get, put}
use mnemostroma.Prelude.Integer.{pos}
use mnemostroma.Memory.Experience.{
  Cluster, Settings, do_this, avoid_this, of_emotion, attract, is_practitioner, compute_maturity,
  new_cluster, decay, pattern_signal, update, record_vecs, intuition_signals,
}
use mnemostroma.Memory.Experience.Bounds.{Reach, here, updated, recorded}
use mnemostroma.Memory.Experience.Forgetting.{praise_turns}

abbrev settings : Settings
settings = record {
  master = 100;
  expert = 30;
  practitioner = 10;
  apprentice = 5;
  vecs_cap = 2;
  signal_threshold = 750;
}

abbrev three_vecs : Dict String (Cluster ℕ)
three_vecs =
    record_vecs 2 ("a" ∷ "a" ∷ []) 8 "positive" 6
      (record_vecs 2 ("a" ∷ []) 7 "positive" 5 (update ("a" ∷ []) false false 4 []))

abbrev vecs_of : Option (Cluster ℕ) → List ℕ
vecs_of none = []
vecs_of (some c) = c.positive_vecs

-- The oldest vector goes first.
last_two : vecs_of (get three_vecs "a") ≡ 8 ∷ 8 ∷ []
unfolding record_vecs update get put
last_two = refl

reached : Reach 2 three_vecs
reached =
    recorded ("a" ∷ "a" ∷ []) 8 "positive" 6
      (recorded ("a" ∷ []) 7 "positive" 5 (updated ("a" ∷ []) false false 4 here))

abbrev praised : Cluster ℕ
praised = record (new_cluster 0) {
  session_count = 40;
  score_sum = pos (39999 + 1);
  emotion_positive = 4;
  emotion_negative = 1;
}

praised_signals :
    intuition_signals settings (("a", praised) ∷ []) ("a" ∷ "b" ∷ [])
    ≡ ("a", do_this) ∷ ("a", of_emotion attract) ∷ []
unfolding intuition_signals get new_cluster
praised_signals = refl

praise_turns_example : pattern_signal settings (decay 80000 9 praised) ≡ some avoid_this
unfolding compute_maturity is_practitioner new_cluster
praise_turns_example =
    praise_turns settings 80000 9 39999 praised refl (omega arith) refl (omega arith)
