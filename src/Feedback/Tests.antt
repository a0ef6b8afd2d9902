-- ===== src/Feedback/Tests.antt =====
-- A session that is retrieved by a query and a get, with a rapid second query.
use mnemostroma.Prelude.{◌≡◌, refl, true, none, List, [], ◌∷◌, string_eq}
use mnemostroma.Prelude.Dict.{get, put}
use mnemostroma.Feedback.{Settings, Tracker, on_semantic_query, on_get}
use mnemostroma.Feedback.Counted.{uses, in_ram, Call, query, get_one, run, shown, IsGrown, run_lem}

abbrev settings : Settings
settings = record {
  one = 100;
  average = λ signal old. old;
  ignore_window_sec = 30;
  revisit_threshold = 3;
}

abbrev tracker : Tracker
tracker = record {
  ram_index = ("a", record { implicit_score = 50; use_count = 7 }) ∷ [];
  retrieval_history = [];
  last_semantic_ts = none;
  last_semantic_ids = [];
}

abbrev later : Tracker
later =
    on_get settings 20 "a"
      (on_semantic_query settings 10 [] (on_semantic_query settings 0 ("a" ∷ []) tracker))

one_use : uses later "a" ≡ 8
unfolding on_semantic_query on_get get put
one_use = refl

there : in_ram tracker "a" ≡ true
unfolding get
there = refl

abbrev calls : List Call
calls = query 0 ("a" ∷ []) ∷ query 10 ("a" ∷ []) ∷ query 90 [] ∷ get_one 95 "a" ∷ []

two_shown : shown 30 "a" none [] calls ≡ 2
two_shown = refl

run_lem_example : IsGrown tracker (run settings calls tracker) "a" 2
run_lem_example = run_lem settings calls tracker "a" there
