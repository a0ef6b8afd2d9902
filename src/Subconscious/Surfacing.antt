-- ===== src/Subconscious/Surfacing.antt =====
-- subconscious/surfacing.py: the anchors and sessions that a message brings up. The similarity of a
-- vector to the message, its rounding to three places and `str.lower` are functions. What is
-- brought up holds the fields that are read afterwards; the others only travel along in it.
pub mod Best
pub mod Complete
pub mod Served
mod Tests
use mnemostroma.Prelude.{
  ℕ, String, Bool, true, false, ◌&&◌, Option, none, some, List, [], ◌∷◌, ◌++◌, ◌==◌, string_eq, leb,
  if◌then◌else◌, take, select, map, contains,
}
use mnemostroma.Prelude.SortDown.{sort_down}
use mnemostroma.Subconscious.Guardian.{mentions}

-- What is read of an anchor or of a session in RAM.
pub record Source {ℓ} (V : Type ℓ) : Type ℓ where
  pub id : String
  pub anchor_type : String
  pub brief : List ℕ
  pub embedding : Option V

pub data Kind : Type 0 where
  anchor : Kind
  session : Kind

-- `similarity` is none where the match was by a word.
pub record Surfaced {ℓ} (V : Type ℓ) : Type ℓ where
  pub kind : Kind
  pub source : Source V
  pub similarity : Option ℕ

or_zero : Option ℕ → ℕ
or_zero none = 0
or_zero (some n) = n

module _ {ℓ} {V : Type ℓ} where
  pub is_near : (V → ℕ) → ℕ → Option V → Bool
  is_near similarity threshold none = false
  is_near similarity threshold (some v) = leb threshold (similarity v)

  -- A source without an embedding is passed over.
  pub is_match : (V → ℕ) → ℕ → Source V → Bool
  unfolding is_near
  is_match similarity threshold s = is_near similarity threshold s.embedding

  rounded : (V → ℕ) → (ℕ → ℕ) → Option V → Option ℕ
  rounded similarity round none = none
  rounded similarity round (some v) = some (round (similarity v))

  pub surfaced_of : (V → ℕ) → (ℕ → ℕ) → Kind → Source V → Surfaced V
  unfolding rounded
  surfaced_of similarity round kind s = record {
    kind = kind;
    source = s;
    similarity = rounded similarity round s.embedding;
  }

  -- The key of the sort; every item of a scan by similarity has one.
  pub key_of : Surfaced V → ℕ
  unfolding or_zero
  key_of r = or_zero r.similarity

  -- The loop that keeps the first item of each id, from the ids that were seen.
  pub dedupe : List String → List (Surfaced V) → List (Surfaced V)
  dedupe seen [] = []
  dedupe seen (r ∷ rs) = elim (contains r.source.id seen) [
    | true ↦ dedupe seen rs
    | false ↦ r ∷ dedupe (r.source.id ∷ seen) rs
  ]

  -- The matches among the anchors and then among the sessions.
  pub matches : (V → ℕ) → (ℕ → ℕ) → ℕ → ℕ → List (Source V) → List (Source V) → List (Surfaced V)
  unfolding is_match surfaced_of
  matches similarity round anchor_threshold session_threshold anchors ram =
      map (surfaced_of similarity round Kind.anchor)
        (select (is_match similarity anchor_threshold) anchors)
      ++ map (surfaced_of similarity round Kind.session)
          (select (is_match similarity session_threshold) ram)

  pub associative_scan :
      (V → ℕ) → (ℕ → ℕ) → ℕ → ℕ → ℕ → List (Source V) → List (Source V) → List (Surfaced V)
  unfolding matches dedupe key_of
  associative_scan similarity round anchor_threshold session_threshold max_results anchors ram =
      take max_results (
        dedupe [] (
          sort_down key_of
            (matches similarity round anchor_threshold session_threshold anchors ram)))

  is_worded : (List ℕ → List ℕ) → List ℕ → Source V → Bool
  is_worded lower text a =
      contains a.anchor_type ("constraint" ∷ "principle" ∷ "decision" ∷ [])
      && mentions lower text a.brief

  pub keyword_surface : (List ℕ → List ℕ) → List ℕ → List (Source V) → List (Surfaced V)
  unfolding is_worded
  keyword_surface lower text anchors = take 3 (
      map (λ (a : Source V). record { kind = Kind.anchor; source = a; similarity = none })
        (select (is_worded lower text) anchors))
