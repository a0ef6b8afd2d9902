-- ===== src/Subconscious/Guardian.antt =====
-- subconscious/guardian.py: which anchors warn, or come back as open loops, and how long they are
-- silent afterwards. The anchors are the values of the index. The similarity of an embedding to
-- the message, its rounding to three places and `str.lower` are functions. A warning holds its
-- anchor in place of the fields that it copies. Times are whole seconds.
pub mod Sweep
pub mod Silence
pub mod Loops
pub mod Merged
mod Tests
use mnemostroma.Prelude.{
  ℕ, ◌+◌, ◌≤◌, ◌<◌, String, Bool, true, false, not, ◌&&◌, ◌||◌, Option, none, some, List, [], ◌∷◌,
  ◌++◌, ◌==◌, ◌=ℕ◌, nat_eq, string_eq, ltb, leb, if◌then◌else◌, any, contains, length, take, select,
  map,
}
use mnemostroma.Prelude.Dict.{Dict, get, put, values}
use mnemostroma.Prelude.SortDown.{sort_down}
use mnemostroma.Prelude.Text.{codes, is_space}

-- What is read of an anchor. `outcome` is `flags.get("outcome")`.
pub record Watched {ℓ} (V : Type ℓ) : Type ℓ where
  pub anchor_id : String
  pub anchor_type : String
  pub brief : List ℕ
  pub decay_level : ℕ
  pub outcome : Option String
  pub embedding : Option V

pub record Warning {ℓ} (V : Type ℓ) : Type ℓ where
  pub anchor : Watched V
  pub similarity : Option ℕ
  pub layer : Option ℕ

is_load_bearing : String → Bool
is_load_bearing anchor_type =
    contains anchor_type ("principle" ∷ "constraint" ∷ "critical" ∷ "decision" ∷ [])

-- `recently_warned.get(anchor_id, 0)`
last_time : Option ℕ → ℕ
last_time none = 0
last_time (some t) = t

-- `now - last < cooldown`
pub is_silent : Dict String ℕ → ℕ → ℕ → String → Bool
unfolding last_time
is_silent warned now cooldown anchor_id = ltb now (last_time (get warned anchor_id) + cooldown)

-- `text.split()`, with the word that is being read.
pub split : List ℕ → List ℕ → List (List ℕ)
split word [] = if length word =ℕ 0 then [] else word ∷ []
split word (c ∷ cs) = elim (is_space c) [
  | true ↦ (if length word =ℕ 0 then [] else word ∷ []) ++ split [] cs
  | false ↦ split (word ++ c ∷ []) cs
]

pub is_prefix : List ℕ → List ℕ → Bool
is_prefix [] text = true
is_prefix (w ∷ ws) [] = false
is_prefix (w ∷ ws) (c ∷ cs) = w =ℕ c && is_prefix ws cs

-- `word in text`
pub occurs : List ℕ → List ℕ → Bool
unfolding is_prefix
occurs word [] = is_prefix word []
occurs word (c ∷ cs) = is_prefix word (c ∷ cs) || occurs word cs

-- Some word of the brief with more than four characters occurs in the text.
pub mentions : (List ℕ → List ℕ) → List ℕ → List ℕ → Bool
unfolding split occurs
mentions lower text brief =
    any (λ w. occurs w (lower text)) (select (λ w. ltb 4 (length w)) (split [] (lower brief)))

is_pending : Option String → Bool
is_pending none = true
is_pending (some outcome) = outcome == "pending"

module _ {ℓ} {V : Type ℓ} where
  -- The loop that three of the scans share: an anchor that may fire, is not silent and is hit is
  -- noted, and is silent from now on. What comes of the loop are the hits in order and the times.
  pub sweep :
      (Watched V → Bool)
      → ℕ
      → ℕ
      → List (Watched V)
      → Dict String ℕ
      → List (Watched V) × Dict String ℕ
  unfolding is_silent
  sweep fires now cooldown [] warned = ([], warned)
  sweep fires now cooldown (a ∷ as') warned =
      elim (fires a && not (is_silent warned now cooldown a.anchor_id)) [
        | true ↦
            let (hits, warned') = sweep fires now cooldown as' (put warned a.anchor_id now) in
            (a ∷ hits, warned')
        | false ↦ sweep fires now cooldown as' warned
      ]

  similar : (V → ℕ) → ℕ → Option V → Bool
  similar similarity threshold none = false
  similar similarity threshold (some v) = leb threshold (similarity v)

  pub guarded : (V → ℕ) → ℕ → Watched V → Bool
  unfolding is_load_bearing similar
  guarded similarity threshold a =
      is_load_bearing a.anchor_type
      && (not ((a.anchor_type == "decision") && ltb 0 a.decay_level)
          && similar similarity threshold a.embedding)

  rounded : (V → ℕ) → (ℕ → ℕ) → Option V → Option ℕ
  rounded similarity round none = none
  rounded similarity round (some v) = some (round (similarity v))

  -- `x.get("similarity") or 0`
  pub score : Warning V → ℕ
  unfolding last_time
  score w = last_time w.similarity

  pub warning_of : (V → ℕ) → (ℕ → ℕ) → Watched V → Warning V
  unfolding rounded
  warning_of similarity round a = record {
    anchor = a;
    similarity = rounded similarity round a.embedding;
    layer = some 2;
  }

  pub anchor_guardian :
      (V → ℕ)
      → (ℕ → ℕ)
      → ℕ
      → ℕ
      → ℕ
      → List (Watched V)
      → Dict String ℕ
      → List (Warning V) × Dict String ℕ
  unfolding guarded sweep warning_of score
  anchor_guardian similarity round threshold cooldown now anchors warned =
      let (hits, warned') = sweep (guarded similarity threshold) now cooldown anchors warned in
      (sort_down score (map (warning_of similarity round) hits), warned')

  pub keyword_guarded : (List ℕ → List ℕ) → List ℕ → Watched V → Bool
  unfolding is_load_bearing mentions
  keyword_guarded lower text a = is_load_bearing a.anchor_type && mentions lower text a.brief

  pub keyword_warning : Watched V → Warning V
  keyword_warning a = record { anchor = a; similarity = none; layer = some 1 }

  pub keyword_anchor_check :
      (List ℕ → List ℕ)
      → List ℕ
      → ℕ
      → ℕ
      → List (Watched V)
      → Dict String ℕ
      → List (Warning V) × Dict String ℕ
  unfolding keyword_guarded sweep keyword_warning
  keyword_anchor_check lower text cooldown now anchors warned =
      let (hits, warned') = sweep (keyword_guarded lower text) now cooldown anchors warned in
      (take 3 (map keyword_warning hits), warned')

  pub is_open : Watched V → Bool
  unfolding is_pending
  is_open a = (a.anchor_type == "decision") && is_pending a.outcome

  -- An open loop has no layer.
  pub loop_of : (V → ℕ) → (ℕ → ℕ) → Watched V → Warning V
  unfolding rounded
  loop_of similarity round a = record {
    anchor = a;
    similarity = rounded similarity round a.embedding;
    layer = none;
  }

  -- The loop of `scan_open_loops` notes no time.
  pub open_similar : (V → ℕ) → ℕ → ℕ → ℕ → Dict String ℕ → Watched V → Bool
  unfolding is_open is_silent similar
  open_similar similarity threshold cooldown now looped a =
      is_open a
      && (not (is_silent looped now cooldown a.anchor_id)
          && similar similarity threshold a.embedding)

  pub note_all : ℕ → List (Warning V) → Dict String ℕ → Dict String ℕ
  note_all now [] looped = looped
  note_all now (w ∷ ws) looped = note_all now ws (put looped w.anchor.anchor_id now)

  pub scan_open_loops :
      (V → ℕ)
      → (ℕ → ℕ)
      → ℕ
      → ℕ
      → ℕ
      → ℕ
      → List (Watched V)
      → Dict String ℕ
      → List (Warning V) × Dict String ℕ
  unfolding open_similar loop_of note_all score
  scan_open_loops similarity round threshold cooldown max_results now anchors looped =
      let hits = select (open_similar similarity threshold cooldown now looped) anchors in
      let result = take max_results (sort_down score (map (loop_of similarity round) hits)) in
      (result, note_all now result looped)

  pub keyword_open : (List ℕ → List ℕ) → List ℕ → Watched V → Bool
  unfolding is_open mentions
  keyword_open lower text a = is_open a && mentions lower text a.brief

  pub keyword_loop : Watched V → Warning V
  keyword_loop a = record { anchor = a; similarity = none; layer = none }

  pub keyword_open_loop :
      (List ℕ → List ℕ)
      → List ℕ
      → ℕ
      → ℕ
      → List (Watched V)
      → Dict String ℕ
      → List (Warning V) × Dict String ℕ
  unfolding keyword_open sweep keyword_loop
  keyword_open_loop lower text cooldown now anchors looped =
      let (hits, looped') = sweep (keyword_open lower text) now cooldown anchors looped in
      (take 3 (map keyword_loop hits), looped')

  pub merge_into : Dict String (Warning V) → List (Warning V) → Dict String (Warning V)
  merge_into merged [] = merged
  merge_into merged (w ∷ ws) = merge_into (put merged w.anchor.anchor_id w) ws

  pub merge_warnings : List (Warning V) → List (Warning V) → List (Warning V)
  unfolding merge_into score
  merge_warnings layer1 layer2 = sort_down score (values (merge_into (merge_into [] layer1) layer2))
