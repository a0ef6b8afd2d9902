-- ===== src/Observer/Continuation/Tests.antt =====
-- Concrete chains of sessions.
use mnemostroma.Prelude.{String, ◌≡◌, refl, ◌⊎◌, Option, some, List, [], ◌∷◌, string_eq}
use mnemostroma.Prelude.Dict.{Dict, get}
use mnemostroma.Observer.Continuation.{
  walk, parent_of, step_up, chain_depth, Candidate, Best, no_best, Continuation, Limits,
  detect_continuation,
}
use mnemostroma.Observer.Continuation.Chain.{IsBest, IsOneOf, IsDetected, detect_continuation_total}

-- `c` continues `b`, `b` continues `a`, and `a` continues `c`.
abbrev circle : Dict String (Option String)
circle = ("a", some "c") ∷ ("b", some "a") ∷ ("c", some "b") ∷ []

-- The circle is walked once.
walked : chain_depth circle "c" ≡ some 3
unfolding chain_depth walk parent_of step_up get
walked = refl

abbrev limits : Limits
limits = record {
  continuation_score_threshold = 650;
  related_cosine_threshold = 450;
  max_age_days = 7;
}

abbrev candidates : List Candidate
candidates =
    record { sid = "b"; created_at = 1000; cosine = 900; combined = 500 }
    ∷ record { sid = "c"; created_at = 2000; cosine = 800; combined = 700 }
    ∷ []

detect_continuation_total_example :
    (b : Best) × (c : Continuation) × (detect_continuation limits 3000 circle candidates ≡ some c)
    × ((b ≡ no_best) ⊎ IsOneOf 3000 7 b candidates)
    × IsBest 3000 7 b candidates
    × IsDetected limits circle b c
detect_continuation_total_example = detect_continuation_total limits 3000 circle candidates
