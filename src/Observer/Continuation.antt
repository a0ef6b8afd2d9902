-- ===== src/Observer/Continuation.antt =====
-- observer/continuation_detector.py: which session a new one continues, and how long the chain is.
-- The neighbours come from the search matrix. The similarity and the combined score of a session
-- are float arithmetic over vectors, tags and age: they are arguments, in one unit of a fraction. Times
-- are whole seconds. The scores and the count of candidates that the answer repeats are left out.
pub mod Chain
mod Tests
use mnemostroma.Prelude.{
  ℕ, zero, suc, ◌+◌, ◌*◌, String, Bool, true, false, Option, none, some, List, [], ◌∷◌, ◌==◌,
  nat_eq, string_eq, leb, ltb, if◌then◌else◌, length, contains,
}
use mnemostroma.Prelude.Dict.{Dict, get}

-- `anchor.flags.get("continuation_of")`, when it is neither missing nor empty nor the session itself
parent_of : String → Option String → Option String
parent_of sid none = none
parent_of sid (some parent) =
    if parent == "" then none else if parent == sid then none else some parent

step_up : Option ℕ → Option ℕ
step_up none = none
step_up (some depth) = some (1 + depth)

-- `_chain_depth`, on fuel, by the `continuation_of` flags of the anchors. It is `none` only if the
-- fuel runs out.
pub walk : ℕ → Dict String (Option String) → List String → String → Option ℕ
unfolding parent_of step_up
walk zero anchors visited sid = none
walk (suc fuel) anchors visited sid = elim (contains sid visited) [
  | true ↦ some 0
  | false ↦ elim (get anchors sid) [
    | none ↦ some 0
    | some flag ↦ elim (parent_of sid flag) [
      | none ↦ some 0
      | some parent ↦ step_up (walk fuel anchors (sid ∷ visited) parent)
    ]
  ]
]

pub chain_depth : Dict String (Option String) → String → Option ℕ
unfolding walk
chain_depth anchors sid = walk (length anchors + 1) anchors [] sid

-- What the loop reads of a neighbour that has a session.
pub record Candidate : Type 0 where
  pub sid : String
  pub created_at : ℕ
  pub cosine : ℕ
  pub combined : ℕ

-- Sessions older than `max_age_days` are passed over.
pub is_recent : ℕ → ℕ → Candidate → Bool
is_recent now max_age_days c = leb now (c.created_at + max_age_days * 86400)

-- `best_score`, `best_cosine` and `best_sid` after the loop: the first candidate with the greatest
-- score, if that is above zero.
pub record Best : Type 0 where
  pub score : ℕ
  pub cosine : ℕ
  pub sid : Option String

abbrev pub no_best : Best
no_best = record { score = 0; cosine = 0; sid = none }

pub better : ℕ → ℕ → Best → Candidate → Best
unfolding is_recent
better now max_age_days best c =
    if is_recent now max_age_days c
    then if ltb best.score c.combined
      then record { score = c.combined; cosine = c.cosine; sid = some c.sid }
      else best
    else best

pub best_of : ℕ → ℕ → Best → List Candidate → Best
unfolding better
best_of now max_age_days best [] = best
best_of now max_age_days best (c ∷ cs) =
    best_of now max_age_days (better now max_age_days best c) cs

pub data Continuation : Type 0 where
  new : Continuation
  related : String → Continuation
  continuation : String → ℕ → Continuation

-- The thresholds, in the unit of the scores.
pub record Limits : Type 0 where
  pub continuation_score_threshold : ℕ
  pub related_cosine_threshold : ℕ
  pub max_age_days : ℕ

deeper : String → Option ℕ → Option Continuation
deeper sid none = none
deeper sid (some depth) = some (continuation sid (depth + 1))

classify : Limits → Dict String (Option String) → Best → Option String → Option Continuation
unfolding chain_depth deeper
classify l anchors best none = some new
classify l anchors best (some sid) =
    if leb l.continuation_score_threshold best.score
    then deeper sid (chain_depth anchors sid)
    else if leb l.related_cosine_threshold best.cosine
    then some (related sid)
    else some new

pub detect_continuation :
    Limits → ℕ → Dict String (Option String) → List Candidate → Option Continuation
unfolding best_of classify
detect_continuation l now anchors cs =
    let best = best_of now l.max_age_days no_best cs in classify l anchors best best.sid
