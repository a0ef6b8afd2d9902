-- ===== src/Memory/Experience.antt =====
-- memory/experience.py: the statistics of a tag and the index of them. A score is a number of thousandths,
-- an intensity a number in one unit, and a vector of any type. The reduction of a score by the
-- days without an update is an argument. Times are whole seconds. The messages of the signals and
-- the conversions from and to rows are not modelled.
pub mod Bounds
pub mod Forgetting
pub mod Signals
mod Tests
use mnemostroma.Prelude.{
  ℕ, ◌+◌, ◌-◌, ◌*◌, String, Bool, true, false, not, ◌&&◌, ◌||◌, Option, none, some, List, [], ◌∷◌,
  ◌++◌, ◌==◌, string_eq, ltb, leb, if◌then◌else◌, length, take, drop,
}
use mnemostroma.Prelude.Dict.{Dict, get, put}
use mnemostroma.Prelude.Integer.{ℤ, pos, negsuc, ◌⊖◌, ◌+ℤ◌, abs, leb_int, max_int, is_negative}

pub record Cluster {ℓ} (V : Type ℓ) : Type ℓ where
  pub session_count : ℕ
  pub score_sum : ℤ
  pub conflict_count : ℕ
  pub last_updated : ℕ
  pub emotion_positive : ℕ
  pub emotion_negative : ℕ
  pub emotion_intensity_sum : ℕ
  pub positive_vecs : List V
  pub negative_vecs : List V
  pub process_vecs : List V

-- The settings of an index; `signal_threshold` is a score, 750 by default.
pub record Settings : Type 0 where
  pub master : ℕ
  pub expert : ℕ
  pub practitioner : ℕ
  pub apprentice : ℕ
  pub vecs_cap : ℕ
  pub signal_threshold : ℕ

pub data Maturity : Type 0 where
  novice : Maturity
  apprentice : Maturity
  practitioner : Maturity
  expert : Maturity
  master : Maturity

pub compute_maturity : ℕ → Settings → Maturity
compute_maturity session_count t =
    if ltb t.master session_count
    then Maturity.master
    else if ltb t.expert session_count
    then Maturity.expert
    else if ltb t.practitioner session_count
    then Maturity.practitioner
    else if ltb t.apprentice session_count
    then Maturity.apprentice
    else Maturity.novice

pub data EmotionSignal : Type 0 where
  attract : EmotionSignal
  repel : EmotionSignal
  ambivalent : EmotionSignal

-- `emotion_signal`, where the valence `(p - n) / (p + n)` is compared by multiplying out.
pub emotion_signal_of : ℕ → ℕ → Option EmotionSignal
emotion_signal_of p n =
    let total = p + n in
    if ltb total 3
    then none
    else if leb (10 * n + 6 * total) (10 * p)
    then some attract
    else if leb (10 * p + 6 * total) (10 * n)
    then some repel
    else if leb (10 * p) (10 * n + 3 * total) && (leb (10 * n) (10 * p + 3 * total) && leb 6 total)
    then some ambivalent
    else none

-- `target.append(vec)`, and then the cut to the last `cap` entries
pub capped {ℓ} : {V : Type ℓ} → ℕ → List V → V → List V
capped cap target vec =
    let target' = target ++ vec ∷ [] in
    if ltb cap (length target') then drop (length target' - cap) target' else target'

-- `max(-abs(score_sum), score_sum - reduction)`
pub decayed_score : ℕ → ℤ → ℤ
decayed_score reduction score_sum = max_int (0 ⊖ abs score_sum) (score_sum +ℤ (0 ⊖ reduction))

-- The score of a processed session: 1, or 2.5 for a continuation, and 1.5 less for a conflict.
pub score_of : Bool → Bool → ℤ
score_of is_continuation is_conflict =
    let score = if is_continuation then pos 2500 else pos 1000 in
    if is_conflict then score +ℤ negsuc 1499 else score

module _ {ℓ} {V : Type ℓ} where
  pub new_cluster : ℕ → Cluster V
  new_cluster now = record {
    session_count = 0;
    score_sum = pos 0;
    conflict_count = 0;
    last_updated = now;
    emotion_positive = 0;
    emotion_negative = 0;
    emotion_intensity_sum = 0;
    positive_vecs = [];
    negative_vecs = [];
    process_vecs = [];
  }

  -- `ExperienceCluster.record`
  pub add_record : ℤ → Bool → ℕ → Cluster V → Cluster V
  add_record score_delta is_conflict now c = record c {
    session_count = c.session_count + 1;
    score_sum = c.score_sum +ℤ score_delta;
    conflict_count = if is_conflict then c.conflict_count + 1 else c.conflict_count;
    last_updated = now;
  }

  -- A charge that is none of the three changes nothing.
  pub record_vec : ℕ → V → String → ℕ → Cluster V → Cluster V
  unfolding capped
  record_vec cap vec charge now c =
      if charge == "positive"
      then record c { positive_vecs = capped cap c.positive_vecs vec; last_updated = now }
      else if charge == "negative"
      then record c { negative_vecs = capped cap c.negative_vecs vec; last_updated = now }
      else if charge == "process"
      then record c { process_vecs = capped cap c.process_vecs vec; last_updated = now }
      else c

  pub record_emotion : String → ℕ → ℕ → Cluster V → Cluster V
  record_emotion charge intensity now c =
      let p = charge == "positive" in
      record c {
        emotion_positive = if p then c.emotion_positive + 1 else c.emotion_positive;
        emotion_negative = if p then c.emotion_negative else c.emotion_negative + 1;
        emotion_intensity_sum = c.emotion_intensity_sum + intensity;
        last_updated = now;
      }

  pub decay : ℕ → ℕ → Cluster V → Cluster V
  unfolding decayed_score
  decay reduction now c = record c {
    score_sum = decayed_score reduction c.score_sum;
    last_updated = now;
  }

  pub or_new : ℕ → Option (Cluster V) → Cluster V
  unfolding new_cluster
  or_new now none = new_cluster now
  or_new now (some c) = c

  -- What the index does to the cluster of every tag, which it makes where there is none.
  pub for_tags :
      ℕ → (Cluster V → Cluster V) → List String → Dict String (Cluster V) → Dict String (Cluster V)
  unfolding or_new
  for_tags now f [] clusters = clusters
  for_tags now f (tag ∷ tags) clusters =
      for_tags now f tags (put clusters tag (f (or_new now (get clusters tag))))

  pub update : List String → Bool → Bool → ℕ → Dict String (Cluster V) → Dict String (Cluster V)
  unfolding score_of add_record for_tags
  update tags is_continuation is_conflict now =
      for_tags now (add_record (score_of is_continuation is_conflict) is_conflict now) tags

  pub record_vecs :
      ℕ → List String → V → String → ℕ → Dict String (Cluster V) → Dict String (Cluster V)
  unfolding record_vec for_tags
  record_vecs cap tags vec charge now = for_tags now (record_vec cap vec charge now) tags

  pub update_emotion :
      List String → String → ℕ → ℕ → Dict String (Cluster V) → Dict String (Cluster V)
  unfolding record_emotion for_tags
  update_emotion tags charge intensity now = for_tags now (record_emotion charge intensity now) tags

  -- The reduction is a function of the seconds without an update.
  pub apply_decay :
      ℕ → (ℕ → ℕ) → ℕ → Dict String (Cluster V) → List String × Dict String (Cluster V)
  unfolding decay
  apply_decay threshold_days reduction now [] = ([], [])
  apply_decay threshold_days reduction now ((tag, c) ∷ clusters) =
      let (decayed, rest) = apply_decay threshold_days reduction now clusters in
      if leb (c.last_updated + threshold_days * 86400) now
      then (tag ∷ decayed, (tag, decay (reduction (now - c.last_updated)) now c) ∷ rest)
      else (decayed, (tag, c) ∷ rest)

pub data SignalType : Type 0 where
  tension : SignalType
  do_this : SignalType
  avoid_this : SignalType
  of_emotion : EmotionSignal → SignalType

pub is_expert : Maturity → Bool
is_expert Maturity.master = true
is_expert Maturity.expert = true
is_expert Maturity.practitioner = false
is_expert Maturity.apprentice = false
is_expert Maturity.novice = false

pub is_practitioner : Maturity → Bool
is_practitioner Maturity.master = true
is_practitioner Maturity.expert = true
is_practitioner Maturity.practitioner = true
is_practitioner Maturity.apprentice = false
is_practitioner Maturity.novice = false

emotion_type : Option EmotionSignal → Option SignalType
emotion_type none = none
emotion_type (some signal) = some (of_emotion signal)

pub add_signal :
    String → Option SignalType → List (String × SignalType) → List (String × SignalType)
add_signal tag none rest = rest
add_signal tag (some signal) rest = (tag, signal) ∷ rest

module _ {ℓ} {V : Type ℓ} where
  -- The first signal of a cluster. An average is compared by multiplying with the sessions, of which a
  -- practitioner has some.
  pub pattern_signal : Settings → Cluster V → Option SignalType
  unfolding compute_maturity is_expert is_practitioner
  pattern_signal t c =
      let maturity = compute_maturity c.session_count t in
      if is_practitioner maturity && ltb (3 * c.session_count) (10 * c.conflict_count)
      then some tension
      else if is_expert maturity && leb_int (pos (t.signal_threshold * c.session_count)) c.score_sum
      then some do_this
      else if is_practitioner maturity && is_negative c.score_sum
      then some avoid_this
      else none

  pub emotion_signal : Cluster V → Option SignalType
  unfolding emotion_signal_of emotion_type
  emotion_signal c = emotion_type (emotion_signal_of c.emotion_positive c.emotion_negative)

  pub signal_under : (Cluster V → Option SignalType) → Option (Cluster V) → Option SignalType
  signal_under f none = none
  signal_under f (some c) = f c

  pub signals_by :
      (Cluster V → Option SignalType)
      → Dict String (Cluster V)
      → List String
      → List (String × SignalType)
  unfolding signal_under add_signal
  signals_by f clusters [] = []
  signals_by f clusters (tag ∷ tags) =
      add_signal tag (signal_under f (get clusters tag)) (signals_by f clusters tags)

  pub intuition_signals :
      Settings → Dict String (Cluster V) → List String → List (String × SignalType)
  unfolding pattern_signal emotion_signal signals_by
  intuition_signals t clusters active_tags = take 5 (
      signals_by (pattern_signal t) clusters active_tags
      ++ signals_by emotion_signal clusters active_tags)
