-- ===== src/Tuner/Conflict/Tests.antt =====
-- A concrete conflict. A vector is a number here.
use mnemostroma.Prelude.{
  ℕ, String, ◌≡◌, refl, true, false, none, some, List, [], ◌∷◌, string_eq, any,
}
use mnemostroma.Prelude.Dict.{Dict, get}
use mnemostroma.Memory.Dissolver.{SessionBrief}
use mnemostroma.Tuner.Conflict.{
  Texts, Neighbour, check_conflict, check_neighbours, checked, noted, conflict_of, under, found_in,
  conflicts, weighty, decisions_contradict, of_vectors, no_shared_entities,
}
use mnemostroma.Tuner.Conflict.Raised.{raise, raised}
use mnemostroma.Tuner.Conflict.Flags.{is_conflict, conflicts_with, check_conflict_lem}

abbrev old_choice : SessionBrief ℕ
old_choice = record {
  session_id = "a";
  importance = "critical";
  created_at = 1000;
  deadline_ts = none;
  urgency_expired = false;
  conflict_flag = false;
  intensity = 0;
  embedding = some 1;
  chunk_vectors = [];
}

abbrev new_choice : SessionBrief ℕ
new_choice = record old_choice { session_id = "b"; importance = "important"; created_at = 90000 }

abbrev ram : Dict String (SessionBrief ℕ)
ram = ("a", old_choice) ∷ []

abbrev texts : Texts ℕ
texts = record {
  similarity = λ v w. 900;
  edit_ratio = λ a b. 300;
  entities = λ a. [];
  min_age = 7200;
}

abbrev neighbours : List Neighbour
neighbours =
    record { sid = some "a"; similarity = 900 } ∷ record { sid = none; similarity = 880 } ∷ []

check_conflict_lem_example :
    ((check_conflict texts new_choice ram neighbours).0
      ≡ any (is_conflict texts new_choice ram) neighbours)
    × ((check_conflict texts new_choice ram neighbours).1
        ≡ raise (any (is_conflict texts new_choice ram) neighbours) new_choice)
    × ((k : String)
        → get (check_conflict texts new_choice ram neighbours).2 k
          ≡ raised (any (conflicts_with texts k new_choice ram) neighbours) (get ram k))
check_conflict_lem_example = check_conflict_lem texts new_choice 1 ram neighbours refl

-- The two sessions contradict each other.
contradicted : (check_conflict texts new_choice ram neighbours).0 ≡ true
unfolding check_conflict checked check_neighbours noted conflict_of under found_in conflicts weighty
    decisions_contradict of_vectors no_shared_entities get
contradicted = refl
