-- ===== src/Memory/Experience/Signals.antt =====
-- Where the signals come from, and how many there are.
use mnemostroma.Prelude.{
  ◌≤◌, ◌≡◌, refl, true, Option, none, some, ◌⊎◌, inl, inr, List, [], ◌∷◌, ◌++◌, String, arith,
  length, length-take, All, All-append, All-take, contains, ==_refl, string_eq,
}
use mnemostroma.Prelude.Dict.{Dict, get}
use mnemostroma.Memory.Experience.{
  Cluster, Settings, SignalType, pattern_signal, emotion_signal, signals_by, signal_under,
  add_signal, intuition_signals,
}

module _ {ℓ} {V : Type ℓ} where
  -- The tag is one that was asked for, its cluster exists, and a rule gives this signal for it.
  pub record IsFrom (rule : Cluster V → Option SignalType) (clusters : Dict String (Cluster V))
      (tags : List String) (signal : String × SignalType) : Type ℓ where
    pub asked : contains signal.0 tags ≡ true
    pub cluster : Cluster V
    pub found : get clusters signal.0 ≡ some cluster
    pub given : rule cluster ≡ some signal.1

  IsFrom-more :
      (rule : Cluster V → Option SignalType) (clusters : Dict String (Cluster V)) (tag : String)
      (tags : List String) (ss : List (String × SignalType))
      → All (IsFrom rule clusters tags) ss
      → All (IsFrom rule clusters (tag ∷ tags)) ss
  IsFrom-more rule clusters tag tags [] h = tt
  IsFrom-more rule clusters tag tags (s ∷ ss) h = (
    record {
      asked = ground (arith, h.0.asked);
      cluster = h.0.cluster;
      found = h.0.found;
      given = h.0.given;
    },
    IsFrom-more rule clusters tag tags ss h.1,
  )

  added :
      (rule : Cluster V → Option SignalType) (clusters : Dict String (Cluster V)) (tag : String)
      (tags : List String) (found : Option (Cluster V)) (o : Option SignalType)
      (rest : List (String × SignalType))
      → get clusters tag ≡ found
      → signal_under rule found ≡ o
      → All (IsFrom rule clusters tags) rest
      → All (IsFrom rule clusters (tag ∷ tags)) (add_signal tag o rest)
  unfolding add_signal signal_under
  added rule clusters tag tags found none rest e f h = IsFrom-more rule clusters tag tags rest h
  added rule clusters tag tags none (some signal) rest e f h = cc
  added rule clusters tag tags (some c) (some signal) rest e f h = (
    record { asked = ground (arith, ==_refl tag); cluster = c; found = e; given = f },
    IsFrom-more rule clusters tag tags rest h,
  )

  signals_by-IsFrom :
      (rule : Cluster V → Option SignalType) (clusters : Dict String (Cluster V))
      (tags : List String)
      → All (IsFrom rule clusters tags) (signals_by rule clusters tags)
  unfolding signals_by
  signals_by-IsFrom rule clusters [] = tt
  signals_by-IsFrom rule clusters (tag ∷ tags) =
      added rule clusters tag tags (get clusters tag) (signal_under rule (get clusters tag))
        (signals_by rule clusters tags) refl refl (signals_by-IsFrom rule clusters tags)

  -- The rule of patterns or the one of emotions.
  abbrev pub IsGiven :
      Settings → Dict String (Cluster V) → List String → String × SignalType → Type ℓ
  IsGiven t clusters tags signal =
      IsFrom (pattern_signal t) clusters tags signal ⊎ IsFrom emotion_signal clusters tags signal

  All-inl :
      (t : Settings) (clusters : Dict String (Cluster V)) (tags : List String)
      (ss : List (String × SignalType))
      → All (IsFrom (pattern_signal t) clusters tags) ss
      → All (IsGiven t clusters tags) ss
  All-inl t clusters tags [] h = tt
  All-inl t clusters tags (s ∷ ss) h = (inl h.0, All-inl t clusters tags ss h.1)

  All-inr :
      (t : Settings) (clusters : Dict String (Cluster V)) (tags : List String)
      (ss : List (String × SignalType))
      → All (IsFrom emotion_signal clusters tags) ss
      → All (IsGiven t clusters tags) ss
  All-inr t clusters tags [] h = tt
  All-inr t clusters tags (s ∷ ss) h = (inr h.0, All-inr t clusters tags ss h.1)

  -- There are at most five signals. Each is for an active tag that has a cluster, and the rule of patterns
  -- or the rule of emotions gives it for that cluster.
  pub intuition_signals_lem :
      (t : Settings) (clusters : Dict String (Cluster V)) (active_tags : List String)
      → let signals = intuition_signals t clusters active_tags in
        (length signals ≤ 5) × All (IsGiven t clusters active_tags) signals
  unfolding intuition_signals
  intuition_signals_lem t clusters active_tags =
      let patterns = signals_by (pattern_signal t) clusters active_tags in
      let emotions = signals_by emotion_signal clusters active_tags in
      (
        omega (arith, length-take 5 (patterns ++ emotions)),
        All-take (IsGiven t clusters active_tags) 5 (patterns ++ emotions) (
            All-append (IsGiven t clusters active_tags) patterns emotions
              (All-inl t clusters active_tags patterns
                (signals_by-IsFrom (pattern_signal t) clusters active_tags))
              (All-inr t clusters active_tags emotions
                (signals_by-IsFrom emotion_signal clusters active_tags))),
      )
