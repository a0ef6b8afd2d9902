-- ===== src/Integration/Proxy/Tests.antt =====
-- Three sessions, two of them with one brief; a prompt on an empty cache. Every brief is good, and
-- no two texts are similar.
use mnemostroma.Prelude.{
  ℕ, ◌≡◌, refl, ◌⊎◌, String, true, false, none, List, [], ◌∷◌, All, string_eq,
}
use mnemostroma.Prelude.SortDown.{Any, Pairwise}
use mnemostroma.Integration.Proxy.{
  Text, Texts, Session, Signal, Proxy, Prompt, is_blank, dedupe_briefs, item, build_static_cache,
  inject,
}
use mnemostroma.Integration.Proxy.Dedupe.{matches, IsSublist, dedupe_briefs_lem}

abbrev texts : Texts
texts = record {
  is_quality_brief = λ b. true;
  normalize_dedup = λ b. b;
  similar = λ a b. false;
  isoformat = λ n. n ∷ [];
}

abbrev session : String → Text → ℕ → Session
session session_id brief created_at = record {
  session_id = session_id;
  brief = brief;
  importance = "important";
  conflict_flag = false;
  created_at = created_at;
  tags = "t" ∷ [];
}

abbrev ram : List Session
ram = session "a" (65 ∷ []) 1 ∷ session "b" (66 ∷ []) 2 ∷ session "c" (65 ∷ []) 3 ∷ []

newest_first : (build_static_cache texts ram []).decisions ≡ item (65 ∷ []) ∷ item (66 ∷ []) ∷ []
unfolding build_static_cache item
newest_first = refl

abbrev briefs : List Text
briefs = (65 ∷ []) ∷ (66 ∷ []) ∷ (65 ∷ []) ∷ []

dedupe_briefs_lem_example :
    let kept = dedupe_briefs texts briefs in
    IsSublist kept briefs
    × Pairwise (λ a b. matches texts b a ≡ false) kept
    × All
        (λ b.
          (is_blank (texts.normalize_dedup b) ≡ true) ⊎ Any (λ a. matches texts b a ≡ true) kept)
        briefs
dedupe_briefs_lem_example = dedupe_briefs_lem texts briefs

abbrev signals : List Signal
signals =
    record { signal = "confidence"; tag = "t"; score = 1 }
    ∷ record { signal = "caution"; tag = "t"; score = 1 }
    ∷ []

abbrev proxy : Proxy
proxy = record {
  static_cache = none;
  cache_updated_at = 0;
  last_injected_ids = [];
  subconscious_signals = signals;
}

abbrev prompt : Prompt ℕ
prompt = record {
  now = 9000;
  relevant_sessions = session "b" (66 ∷ []) 2 ∷ [];
  experience = none;
  include_tools = true;
  pure_context = false;
  tools_enabled = true;
}

drained : (inject texts ram [] prompt proxy).1.subconscious_signals ≡ []
unfolding inject
drained = refl
