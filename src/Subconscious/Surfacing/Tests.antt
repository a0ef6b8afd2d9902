-- ===== src/Subconscious/Surfacing/Tests.antt =====
-- A vector is its similarity. One id is that of an anchor and of a session.
use mnemostroma.Prelude.{
  ℕ, ◌≤◌, ◌≡◌, ◌⊎◌, refl, String, some, List, [], ◌∷◌, length, map, All, string_eq,
}
use mnemostroma.Prelude.SortDown.{Pairwise, IsSortedDown}
use mnemostroma.Subconscious.Surfacing.{Source, Surfaced, Kind, key_of, associative_scan}
use mnemostroma.Subconscious.Surfacing.Best.{IsApart}
use mnemostroma.Subconscious.Surfacing.Complete.{IsOf, AllTold, associative_scan_lem}

abbrev same : ℕ → ℕ
same n = n

abbrev source : String → ℕ → Source ℕ
source id similarity = record {
  id = id;
  anchor_type = "decision";
  brief = [];
  embedding = some similarity;
}

abbrev anchors : List (Source ℕ)
anchors = source "a" 80 ∷ source "b" 70 ∷ source "c" 76 ∷ []

abbrev ram : List (Source ℕ)
ram = source "a" 90 ∷ source "d" 85 ∷ []

best_of_a :
    map (λ (r : Surfaced ℕ). r.similarity) (associative_scan same same 75 78 2 anchors ram)
    ≡ some 90 ∷ some 85 ∷ []
unfolding associative_scan
best_of_a = refl

associative_scan_lem_example :
    let found = associative_scan same same 75 78 2 anchors ram in
    (length found ≤ 2)
    × IsSortedDown key_of found
    × Pairwise IsApart found
    × All
        (λ r. IsOf same same Kind.anchor 75 anchors r ⊎ IsOf same same Kind.session 78 ram r)
        found
    × AllTold same same Kind.anchor 75 anchors 2 found
    × AllTold same same Kind.session 78 ram 2 found
associative_scan_lem_example = associative_scan_lem same same 75 78 2 anchors ram
