-- ===== src/Subconscious/Anchors.antt =====
-- subconscious/anchor.py and subconscious/anchor_index.py: the anchors that are held in RAM. An
-- anchor is one object that the index and its callers share, so that a touch is seen in the index.
-- The clock is in seconds. The fields that only travel along are one value of any type.
pub mod Capacity
mod Tests
use mnemostroma.Prelude.{
  ℕ, ◌+◌, String, Bool, true, false, not, ◌&&◌, Option, none, some, is_some, List, [], ◌∷◌, ◌==◌,
  string_eq, leb, ltb, if◌then◌else◌, length, contains, select,
}
use mnemostroma.Prelude.Dict.{Dict, get, put, remove, values}

pub record Anchor {ℓ} (F : Type ℓ) : Type ℓ where
  pub anchor_id : String
  pub anchor_type : String
  pub rest : F
  pub access_count : ℕ
  pub last_accessed_at : ℕ
  pub updated_at : ℕ

pub record AnchorIndex {ℓ} (F : Type ℓ) : Type ℓ where
  pub anchors : Dict String (Anchor F)
  pub max_capacity : ℕ

-- `infer_anchor_type`, on the types of the entities
pub infer_anchor_type : String → List String → String
infer_anchor_type importance entity_types =
    if contains "decision" entity_types
    then "decision"
    else if contains "решение" entity_types
    then "decision"
    else if contains "prohibition" entity_types
    then "constraint"
    else if contains "ban" entity_types
    then "constraint"
    else if contains "запрет" entity_types
    then "constraint"
    else if importance == "critical"
    then "milestone"
    else if contains "date" entity_types
    then "event"
    else if contains "дата" entity_types
    then "event"
    else "observation"

module _ {ℓ} {F : Type ℓ} where
  abbrev pub touch : ℕ → Anchor F → Anchor F
  touch now a = record a {
    access_count = a.access_count + 1;
    last_accessed_at = now;
    updated_at = now;
  }

  touched : ℕ → String → Option (Anchor F) → AnchorIndex F → Option (Anchor F) × AnchorIndex F
  touched now anchor_id none ix = (none, ix)
  touched now anchor_id (some a) ix =
      (some (touch now a), record ix { anchors = put ix.anchors anchor_id (touch now a) })

  pub resurface : ℕ → String → AnchorIndex F → Option (Anchor F) × AnchorIndex F
  unfolding touched
  resurface now anchor_id ix = touched now anchor_id (get ix.anchors anchor_id) ix

  -- `min` over the keys: the first of the entries with the least `last_accessed_at`.
  pub oldest_from : String × Anchor F → Dict String (Anchor F) → String × Anchor F
  oldest_from best [] = best
  oldest_from best (e ∷ es) =
      oldest_from (if ltb e.1.last_accessed_at best.1.last_accessed_at then e else best) es

  -- `_evict_oldest`, on the anchors
  pub evict_oldest : Dict String (Anchor F) → Option (Anchor F) × Dict String (Anchor F)
  unfolding oldest_from
  evict_oldest [] = (none, [])
  evict_oldest (e ∷ es) =
      let (oldest_id, evicted) = oldest_from e es in (some evicted, remove (e ∷ es) oldest_id)

  room_for : Anchor F → AnchorIndex F → Option (Anchor F) × Dict String (Anchor F)
  unfolding evict_oldest
  room_for a ix =
      if is_some (get ix.anchors a.anchor_id)
      then (none, ix.anchors)
      else if leb ix.max_capacity (length ix.anchors)
      then evict_oldest ix.anchors
      else (none, ix.anchors)

  -- `put`: the evicted anchor, if there is one
  pub put_anchor : Anchor F → AnchorIndex F → Option (Anchor F) × AnchorIndex F
  unfolding room_for
  put_anchor a ix =
      let (evicted, anchors) = room_for a ix in
      (evicted, record ix { anchors = put anchors a.anchor_id a })

  pub query_by_type : String → AnchorIndex F → List (Anchor F)
  query_by_type anchor_type ix = select (λ a. a.anchor_type == anchor_type) (values ix.anchors)
