-- ===== src/Subconscious/Guardian/Silence.antt =====
-- How long an anchor is silent after it has warned, over any later scans of both layers.
use mathlib.Core.Path.{subst}
use mnemostroma.Prelude.{
  ℕ, ◌+◌, ◌<◌, String, ◌≡◌, ap, ◌≢◌, some, List, [], ◌∷◌, map, take, All, All-take, string_eq,
  select, any, if◌then◌else◌, nat_eq,
}
use mnemostroma.Prelude.Dict.{Dict, get}
use mnemostroma.Prelude.SortDown.{
  All-mapped, Any, Any-All, All-sort_down, sort_down, IsSortedDown, sort_down-IsSortedDown,
  Pairwise,
}
use mnemostroma.Subconscious.Guardian.{
  Watched, Warning, score, guarded, keyword_guarded, warning_of, keyword_warning, sweep,
  anchor_guardian, keyword_anchor_check,
}
use mnemostroma.Subconscious.Guardian.Sweep.{
  sweep_notes, sweep_silent, sweep_from, same_times, hit_of, is_of,
}

-- A scan of the guardian: of either layer, at a time, on the anchors of that time.
pub data Scan {ℓ} (V : Type ℓ) : Type ℓ where
  semantic : (V → ℕ) → (ℕ → ℕ) → ℕ → ℕ → ℕ → List (Watched V) → Scan V
  keyword : (List ℕ → List ℕ) → List ℕ → ℕ → ℕ → List (Watched V) → Scan V

module _ {ℓ} {V : Type ℓ} where
  abbrev pub run_scan : Scan V → Dict String ℕ → List (Warning V) × Dict String ℕ
  run_scan (Scan.semantic similarity round threshold cooldown now anchors) warned =
      anchor_guardian similarity round threshold cooldown now anchors warned
  run_scan (Scan.keyword lower text cooldown now anchors) warned =
      keyword_anchor_check lower text cooldown now anchors warned

  abbrev pub time_of : Scan V → ℕ
  time_of (Scan.semantic similarity round threshold cooldown now anchors) = now
  time_of (Scan.keyword lower text cooldown now anchors) = now

  abbrev pub cooldown_of : Scan V → ℕ
  cooldown_of (Scan.semantic similarity round threshold cooldown now anchors) = cooldown
  cooldown_of (Scan.keyword lower text cooldown now anchors) = cooldown

  -- All the warnings of later scans.
  abbrev pub run_scans : List (Scan V) → Dict String ℕ → List (List (Warning V))
  run_scans [] warned = []
  run_scans (s ∷ ss) warned = (run_scan s warned).0 ∷ run_scans ss (run_scan s warned).1

  abbrev pub IsAbout : String → Warning V → Type 0
  IsAbout k w = w.anchor.anchor_id ≡ k

  -- What a scan warns about is noted at its time.
  scan_notes :
      (s : Scan V) (warned : Dict String ℕ)
      → All
          (λ (w : Warning V). get (run_scan s warned).1 w.anchor.anchor_id ≡ some (time_of s))
          (run_scan s warned).0
  unfolding anchor_guardian keyword_anchor_check warning_of keyword_warning
  scan_notes (Scan.semantic similarity round threshold cooldown now anchors) warned =
      let (hits, warned') = sweep (guarded similarity threshold) now cooldown anchors warned in
      let P : Warning V → Type 0 = λ w. get warned' w.anchor.anchor_id ≡ some now in
      All-sort_down P score (map (warning_of similarity round) hits) (
        All-mapped P (warning_of similarity round) hits
          (sweep_notes (guarded similarity threshold) now cooldown anchors warned))
  scan_notes (Scan.keyword lower text cooldown now anchors) warned =
      let (hits, warned') = sweep (keyword_guarded lower text) now cooldown anchors warned in
      let P : Warning V → Type 0 = λ w. get warned' w.anchor.anchor_id ≡ some now in
      All-take P 3 (map keyword_warning hits) (
        All-mapped P keyword_warning hits
          (sweep_notes (keyword_guarded lower text) now cooldown anchors warned))

  scan_silent :
      (s : Scan V) (warned : Dict String ℕ) (k : String) (t : ℕ)
      → get warned k ≡ some t
      → time_of s < t + cooldown_of s
      → All (λ w. ¬ IsAbout k w) (run_scan s warned).0 × (get (run_scan s warned).1 k ≡ some t)
  unfolding anchor_guardian keyword_anchor_check warning_of keyword_warning
  scan_silent (Scan.semantic similarity round threshold cooldown now anchors) warned k t h l =
      let (hits, warned') = sweep (guarded similarity threshold) now cooldown anchors warned in
      let (none_hit, kept) =
        sweep_silent (guarded similarity threshold) now cooldown anchors warned k t h l in
      (
        All-sort_down (λ w. ¬ IsAbout k w) score (map (warning_of similarity round) hits)
            (All-mapped (λ w. ¬ IsAbout k w) (warning_of similarity round) hits none_hit),
        kept,
      )
  scan_silent (Scan.keyword lower text cooldown now anchors) warned k t h l =
      let (hits, warned') = sweep (keyword_guarded lower text) now cooldown anchors warned in
      let (none_hit, kept) =
        sweep_silent (keyword_guarded lower text) now cooldown anchors warned k t h l in
      (
        All-take (λ w. ¬ IsAbout k w) 3 (map keyword_warning hits)
            (All-mapped (λ w. ¬ IsAbout k w) keyword_warning hits none_hit),
        kept,
      )

  scans_silent :
      (ss : List (Scan V)) (warned : Dict String ℕ) (k : String) (t : ℕ)
      → get warned k ≡ some t
      → All (λ s. time_of s < t + cooldown_of s) ss
      → All (All (λ w. ¬ IsAbout k w)) (run_scans ss warned)
  scans_silent [] warned k t h l = tt
  scans_silent (s ∷ ss) warned k t h l =
      let (now_silent, kept) = scan_silent s warned k t h l.0 in
      (now_silent, scans_silent ss (run_scan s warned).1 k t kept l.1)

  -- After a scan of either layer has warned about an anchor, no later scan of either layer warns about
  -- it again before its cooldown has passed since then, whatever the messages and the anchors are.
  pub warned_once :
      (s : Scan V) (ss : List (Scan V)) (warned : Dict String ℕ) (k : String)
      → Any (IsAbout k) (run_scan s warned).0
      → All (λ s'. time_of s' < time_of s + cooldown_of s') ss
      → All (All (λ w. ¬ IsAbout k w)) (run_scans ss (run_scan s warned).1)
  warned_once s ss warned k told later =
      let (w, noted, about) = Any-All (run_scan s warned).0 (scan_notes s warned) told in
      scans_silent ss (run_scan s warned).1 k (time_of s)
        (subst (λ j. get (run_scan s warned).1 j ≡ some (time_of s)) about noted) later

  -- Of anchors with different ids, the keyword check returns the first three that it hits, and no more. Yet
  -- every anchor that it hits is noted as warned about now, also one that it does not return. The
  -- other times stay.
  pub keyword_anchor_check_lem :
      (lower : List ℕ → List ℕ) (text : List ℕ) (cooldown now : ℕ) (anchors : List (Watched V))
      (warned : Dict String ℕ)
      → Pairwise (λ (a b : Watched V). a.anchor_id ≢ b.anchor_id) anchors
      → let hits = select (hit_of (keyword_guarded lower text) now cooldown warned) anchors in
        ((keyword_anchor_check lower text cooldown now anchors warned).0
          ≡ take 3 (map keyword_warning hits))
        × ((k : String)
            → get (keyword_anchor_check lower text cooldown now anchors warned).1 k
              ≡ (if any (is_of k) hits then some now else get warned k))
  unfolding keyword_anchor_check
  keyword_anchor_check_lem lower text cooldown now anchors warned d =
      let (e, f) =
        sweep_from (keyword_guarded lower text) now cooldown anchors warned warned d
          (same_times warned anchors) in
      (ap (λ hs. take 3 (map keyword_warning hs)) e, f)

  -- Of anchors with different ids, the semantic scan warns about all that it hits: those of a load-bearing type, other
  -- than decayed decisions, that are not silent and whose embedding reaches the threshold. The greatest
  -- similarity comes first. Exactly these are noted as warned about now.
  pub anchor_guardian_lem :
      (similarity : V → ℕ) (round : ℕ → ℕ) (threshold cooldown now : ℕ) (anchors : List (Watched V))
      (warned : Dict String ℕ)
      → Pairwise (λ (a b : Watched V). a.anchor_id ≢ b.anchor_id) anchors
      → let hits = select (hit_of (guarded similarity threshold) now cooldown warned) anchors in
        ((anchor_guardian similarity round threshold cooldown now anchors warned).0
          ≡ sort_down score (map (warning_of similarity round) hits))
        × IsSortedDown score
            (anchor_guardian similarity round threshold cooldown now anchors warned).0
        × ((k : String)
            → get (anchor_guardian similarity round threshold cooldown now anchors warned).1 k
              ≡ (if any (is_of k) hits then some now else get warned k))
  unfolding anchor_guardian
  anchor_guardian_lem similarity round threshold cooldown now anchors warned d =
      let (hits, warned') = sweep (guarded similarity threshold) now cooldown anchors warned in
      let (e, f) =
        sweep_from (guarded similarity threshold) now cooldown anchors warned warned d
          (same_times warned anchors) in
      (
        ap (λ hs. sort_down score (map (warning_of similarity round) hs)) e,
        sort_down-IsSortedDown score (map (warning_of similarity round) hits),
        f,
      )
