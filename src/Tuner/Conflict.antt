-- ===== src/Tuner/Conflict.antt =====
-- tuner/conflict.py: which sessions in RAM contradict a new one. The neighbours come from the search
-- matrix, each with the session that its label leads to, if any. The similarity of two vectors,
-- the ratio of difflib and the words of a text are arguments, in thousandths; a text belongs to a
-- session id and does not change.
pub mod Raised
pub mod Flags
mod Tests
use mnemostroma.Prelude.{
  ℕ, ◌+◌, ◌-◌, String, Bool, true, false, not, ◌&&◌, ◌||◌, Option, none, some, List, [], ◌∷◌, ◌==◌,
  string_eq, ltb, leb, if◌then◌else◌, any, contains,
}
use mnemostroma.Prelude.Dict.{Dict, get, put}
use mnemostroma.Memory.Dissolver.{SessionBrief}

pub record Texts {ℓ} (V : Type ℓ) : Type ℓ where
  pub similarity : V → V → ℕ
  pub edit_ratio : String → String → ℕ
  pub entities : String → List String
  pub min_age : ℕ

pub record Neighbour : Type 0 where
  pub sid : Option String
  pub similarity : ℕ

-- `sb.importance in ("critical", "important")`
weighty : String → Bool
weighty importance = (importance == "critical") || (importance == "important")

-- `abs(a - b)`
abbrev pub distance : ℕ → ℕ → ℕ
distance a b = (a - b) + (b - a)

module _ {ℓ} {V : Type ℓ} (t : Texts V) where
  no_shared_entities : String → String → Bool
  no_shared_entities a b = not (any (λ e. contains e (t.entities b)) (t.entities a))

  of_vectors : Option V → Option V → String → String → Bool
  unfolding no_shared_entities
  of_vectors none vec_b a b = false
  of_vectors (some v) none a b = false
  of_vectors (some v) (some w) a b =
      if leb (t.similarity v w) 850
      then false
      else ltb (t.edit_ratio a b + 400) 1000 || no_shared_entities a b

  pub decisions_contradict : SessionBrief V → SessionBrief V → Bool
  unfolding of_vectors
  decisions_contradict a b = of_vectors a.embedding b.embedding a.session_id b.session_id

  -- The tests of the loop on a session that was found in RAM.
  pub conflicts : SessionBrief V → SessionBrief V → Bool
  unfolding weighty decisions_contradict
  conflicts new_sb sb =
      weighty sb.importance
      && (weighty new_sb.importance
          && (not (ltb (distance new_sb.created_at sb.created_at) t.min_age)
              && decisions_contradict new_sb sb))

  -- The session of a neighbour that passes all tests, with its id.
  found_in : SessionBrief V → String → Option (SessionBrief V) → Option (String × SessionBrief V)
  unfolding conflicts
  found_in new_sb sid none = none
  found_in new_sb sid (some sb) = if conflicts new_sb sb then some (sid, sb) else none

  under :
      SessionBrief V
      → Dict String (SessionBrief V)
      → Option String
      → Option (String × SessionBrief V)
  unfolding found_in
  under new_sb ram none = none
  under new_sb ram (some sid) =
      if sid == ""
      then none
      else if sid == new_sb.session_id
      then none
      else found_in new_sb sid (get ram sid)

  pub conflict_of :
      SessionBrief V → Dict String (SessionBrief V) → Neighbour → Option (String × SessionBrief V)
  unfolding under
  conflict_of new_sb ram n = if leb n.similarity 850 then none else under new_sb ram n.sid

  abbrev pub flag : SessionBrief V → SessionBrief V
  flag sb = record sb { conflict_flag = true }

  -- What the loop changes: whether a conflict was found, the new session, and those in RAM.
  abbrev pub Found : Type ℓ
  Found = Bool × SessionBrief V × Dict String (SessionBrief V)

  noted : Option (String × SessionBrief V) → Found → Found
  noted none s = s
  noted (some e) s = (true, flag s.1, put s.2 e.0 (flag e.1))

  pub check_neighbours : Found → List Neighbour → Found
  unfolding conflict_of noted
  check_neighbours s [] = s
  check_neighbours s (n ∷ ns) = check_neighbours (noted (conflict_of s.1 s.2 n) s) ns

  -- Without an embedding nothing is looked for.
  checked : Option V → SessionBrief V → Dict String (SessionBrief V) → List Neighbour → Found
  unfolding check_neighbours
  checked none new_sb ram ns = (false, new_sb, ram)
  checked (some v) new_sb ram ns = check_neighbours (false, new_sb, ram) ns

  pub check_conflict : SessionBrief V → Dict String (SessionBrief V) → List Neighbour → Found
  unfolding checked
  check_conflict new_sb ram ns = checked new_sb.embedding new_sb ram ns
