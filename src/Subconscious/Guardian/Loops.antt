-- ===== src/Subconscious/Guardian/Loops.antt =====
-- Open loops: only those that are returned are noted.
use mnemostroma.Prelude.{
  ℕ, zero, suc, ◌≤◌, String, ◌≡◌, refl, ◌∙◌, Bool, true, false, some, List, [], ◌∷◌, arith, ◌==◌,
  string_eq, nat_eq, if◌then◌else◌, any, All, All-take, map, take, select, length, length-take,
}
use mnemostroma.Prelude.Dict.{Dict, get, put, get-put}
use mnemostroma.Prelude.Sort.{All-select, All-map}
use mnemostroma.Prelude.SortDown.{
  All-mapped, All-sort_down, sort_down, IsSortedDown, sort_down-IsSortedDown,
}
use mnemostroma.Subconscious.Guardian.{
  Watched, Warning, score, loop_of, open_similar, is_open, is_silent, note_all, scan_open_loops,
}

module _ {ℓ} {V : Type ℓ} where
  abbrev pub tells_of : String → Warning V → Bool
  tells_of k w = w.anchor.anchor_id == k

  get-note_all :
      (now : ℕ) (ws : List (Warning V)) (looped : Dict String ℕ) (k : String)
      → get (note_all now ws looped) k ≡ (if any (tells_of k) ws then some now else get looped k)
  unfolding note_all
  get-note_all now [] looped k = refl
  get-note_all now (w ∷ ws) looped k =
      get-note_all now ws (put looped w.anchor.anchor_id now) k
      ∙ ground (arith, get-put looped w.anchor.anchor_id k now)

  take-IsSortedDown :
      (key : Warning V → ℕ) (n : ℕ) (ws : List (Warning V))
      → IsSortedDown key ws
      → IsSortedDown key (take n ws)
  take-IsSortedDown key zero ws h = tt
  take-IsSortedDown key (suc n) [] h = tt
  take-IsSortedDown key (suc n) (w ∷ ws) h =
      (All-take (λ v. key v ≤ key w) n ws h.0, take-IsSortedDown key n ws h.1)

  none_is_true : (as' : List (Watched V)) → All (λ a. Unit {0}) as'
  none_is_true [] = tt
  none_is_true (a ∷ as') = (tt, none_is_true as')

  -- A scan for open loops returns at most `max_results`, the most similar first. Each is a decision that
  -- is pending and was not silent. Exactly those that are returned are noted, so that an open loop that
  -- is left out for want of room may come back at the next scan.
  pub scan_open_loops_lem :
      (similarity : V → ℕ) (round : ℕ → ℕ) (threshold cooldown max_results now : ℕ)
      (anchors : List (Watched V)) (looped : Dict String ℕ)
      → let (told, looped') =
          scan_open_loops similarity round threshold cooldown max_results now anchors looped in
        (length told ≤ max_results)
        × IsSortedDown score told
        × All
            (λ (w : Warning V).
              (is_open w.anchor ≡ true)
              × (is_silent looped now cooldown w.anchor.anchor_id ≡ false))
            told
        × ((k : String)
            → get looped' k ≡ (if any (tells_of k) told then some now else get looped k))
  unfolding scan_open_loops open_similar loop_of
  scan_open_loops_lem similarity round threshold cooldown max_results now anchors looped =
      let P : Warning V → Type 0 = λ w.
        (is_open w.anchor ≡ true) × (is_silent looped now cooldown w.anchor.anchor_id ≡ false) in
      let hits : List (Watched V) =
        select (open_similar similarity threshold cooldown now looped) anchors in
      let found : List (Warning V) = map (loop_of similarity round) hits in
      let best : List (Warning V) = sort_down score found in
      (
        omega (arith, length-take max_results best),
        take-IsSortedDown score max_results best (sort_down-IsSortedDown score found),
        All-take P max_results best (
            All-sort_down P score found (
              All-mapped P (loop_of similarity round) hits (
                All-map hits (λ a h. (ground (arith, h.1), ground (arith, h.1)))
                  (All-select (λ a. Unit {0})
                    (open_similar similarity threshold cooldown now looped) anchors
                    (none_is_true anchors))))),
        get-note_all now (take max_results best) looped,
      )
