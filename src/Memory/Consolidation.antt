-- ===== src/Memory/Consolidation.antt =====
-- memory/consolidation.py: the passes of ConsolidationWorker over the sessions in RAM and over the
-- anchors. Times are whole seconds. `consolidate` is modelled up to its step 1, with what it gives
-- to the persistence layer; what the layer reads back for its assertion is not modelled.
pub mod Advance
pub mod Ages
pub mod Passes
mod Tests
use mnemostroma.Prelude.{
  ℕ, ◌+◌, ◌*◌, String, Bool, true, false, not, ◌&&◌, ◌||◌, Option, none, some, List, [], ◌∷◌, ◌++◌,
  ◌=ℕ◌, min, ltb, leb, if◌then◌else◌, length, take,
}

-- What is read and written of an anchor. The facts are of any type.
pub record Anchor {ℓ} (F : Type ℓ) : Type ℓ where
  pub anchor_id : String
  pub user_pin : Bool
  pub decay_level : ℕ
  pub last_accessed_at : ℕ
  pub created_at : ℕ
  pub updated_at : ℕ
  pub key_facts : List F

-- `_DECAY_FACTS_LIMIT`, for the levels 0 to 3.
pub decay_facts_limit : ℕ → ℕ
decay_facts_limit level =
    if level =ℕ 0 then 5 else if level =ℕ 1 then 3 else if level =ℕ 2 then 1 else 0

-- What a pass over the anchors leaves: the anchors, what was saved, the sessions whose content was
-- dropped from the database, and the number that is returned.
pub record Pass {ℓ} (F : Type ℓ) : Type ℓ where
  pub anchors : List (Anchor F)
  pub saved : List (Anchor F)
  pub nulled : List String
  pub decayed : ℕ

module _ {ℓ} {F : Type ℓ} where
  -- `anchor.last_accessed_at or anchor.created_at`
  pub last_access : Anchor F → ℕ
  last_access a = if a.last_accessed_at =ℕ 0 then a.created_at else a.last_accessed_at

  -- None of the three tests passes the anchor over.
  pub is_due : ℕ → ℕ → Anchor F → Bool
  unfolding last_access
  is_due threshold_days now a =
      not a.user_pin
      && (not (leb 3 a.decay_level) && not (ltb now (last_access a + threshold_days * 86400)))

  pub advance : ℕ → Anchor F → Anchor F
  unfolding decay_facts_limit
  advance now a =
      let decay_level = min 3 (a.decay_level + 1) in
      let limit = decay_facts_limit decay_level in
      record a {
        decay_level = decay_level;
        updated_at = now;
        key_facts = if ltb limit (length a.key_facts) then take limit a.key_facts else a.key_facts;
      }

  -- Whether there is a persistence layer comes first.
  pub run_anchor_decay : Bool → ℕ → ℕ → List (Anchor F) → Pass F
  unfolding is_due advance
  run_anchor_decay persistence threshold_days now [] = record {
    anchors = [];
    saved = [];
    nulled = [];
    decayed = 0;
  }
  run_anchor_decay persistence threshold_days now (a ∷ as') =
      let rest = run_anchor_decay persistence threshold_days now as' in
      let a' = advance now a in
      if is_due threshold_days now a
      then record {
        anchors = a' ∷ rest.anchors;
        saved = if persistence then a' ∷ rest.saved else rest.saved;
        nulled =
            if leb 2 a'.decay_level && persistence then a'.anchor_id ∷ rest.nulled else rest.nulled;
        decayed = rest.decayed + 1;
      }
      else record rest { anchors = a ∷ rest.anchors }

-- What step 1 of `consolidate` reads and writes of a session.
pub record Session : Type 0 where
  pub session_id : String
  pub created_at : ℕ
  pub age_signal : String
  pub deadline_ts : Option ℕ
  pub urgency_active : Bool
  pub urgency_expired : Bool

-- What the persistence layer is asked for.
pub data Effect : Type 0 where
  enqueue_session : Session → Effect
  flush : Effect

-- `age_days > days`, where a session from the future has a negative age
pub is_older : ℕ → ℕ → ℕ → Bool
is_older now created_at days = ltb (created_at + days * 86400) now

pub age_signal_of : ℕ → ℕ → String
unfolding is_older
age_signal_of now created_at =
    if is_older now created_at 90
    then "archive"
    else if is_older now created_at 30
    then "stale"
    else if is_older now created_at 7
    then "actual"
    else "fresh"

-- `deadline_ts and deadline_ts < now`
pub is_past : ℕ → Option ℕ → Bool
is_past now none = false
is_past now (some deadline) = not (deadline =ℕ 0) && ltb deadline now

pub expire : Bool → Session → Session
expire passed s =
    if passed && not s.urgency_expired
    then record s { urgency_active = false; urgency_expired = true }
    else s

pub update_session : ℕ → Session → Session
unfolding age_signal_of is_past expire
update_session now s =
    expire (is_past now s.deadline_ts) (record s { age_signal = age_signal_of now s.created_at })

pub effects_of : Session → List Effect
effects_of s = enqueue_session s ∷ (if s.urgency_expired then flush ∷ [] else [])

pub update_sessions : Bool → ℕ → List Session → List Session × List Effect
unfolding update_session effects_of
update_sessions persistence now [] = ([], [])
update_sessions persistence now (s ∷ ss) =
    let (sessions, effects) = update_sessions persistence now ss in
    let s' = update_session now s in
    (s' ∷ sessions, (if persistence then effects_of s' else []) ++ effects)
