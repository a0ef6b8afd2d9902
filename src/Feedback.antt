-- ===== src/Feedback.antt =====
-- feedback/implicit.py: signals of use, and the tracker that derives them from the calls of an agent.
-- A score is a number up to `one`; the moving average by a signal, before it is clamped, is an argument.
-- Whether a text mentions an id is one too. Times are whole seconds.
pub mod Counted
mod Tests
use mnemostroma.Prelude.{
  ℕ, ◌+◌, String, Bool, true, false, Option, none, some, List, [], ◌∷◌, ◌++◌, string_eq, min, ltb,
  leb, if◌then◌else◌, length, contains,
}
use mnemostroma.Prelude.Dict.{Dict, get, put}

-- The fields of a session in RAM that a signal changes.
pub record Scored : Type 0 where
  pub implicit_score : ℕ
  pub use_count : ℕ

pub record Settings : Type 0 where
  pub one : ℕ
  pub average : String → ℕ → ℕ
  pub ignore_window_sec : ℕ
  pub revisit_threshold : ℕ

-- ImplicitFeedbackTracker with the sessions in RAM.
pub record Tracker : Type 0 where
  pub ram_index : Dict String Scored
  pub retrieval_history : Dict String (List ℕ)
  pub last_semantic_ts : Option ℕ
  pub last_semantic_ids : List String

pub scored : Settings → String → Scored → Scored
scored c signal sb = record {
  implicit_score = min c.one (c.average signal sb.implicit_score);
  use_count =
      if contains signal ("USE" ∷ "DEEP_USE" ∷ "REVISIT" ∷ [])
      then sb.use_count + 1
      else sb.use_count;
}

pub put_scored :
    Settings → String → String → Dict String Scored → Option Scored → Dict String Scored
unfolding scored
put_scored c session_id signal ram none = ram
put_scored c session_id signal ram (some sb) = put ram session_id (scored c signal sb)

-- A session that is not in RAM is passed over.
pub record_signal : Settings → String → String → Tracker → Tracker
unfolding put_scored
record_signal c session_id signal t = record t {
  ram_index = put_scored c session_id signal t.ram_index (get t.ram_index session_id);
}

pub times_or_none : Option (List ℕ) → List ℕ
times_or_none none = []
times_or_none (some times) = times

pub record_retrieval : Settings → ℕ → String → Tracker → Tracker
unfolding times_or_none record_signal
record_retrieval c now session_id t =
    let times = times_or_none (get t.retrieval_history session_id) ++ now ∷ [] in
    let t' = record t { retrieval_history = put t.retrieval_history session_id times } in
    record_signal c session_id (if leb c.revisit_threshold (length times) then "REVISIT" else "USE")
      t'

pub ignore_all : Settings → List String → Tracker → Tracker
unfolding record_signal
ignore_all c [] t = t
ignore_all c (sid ∷ sids) t = ignore_all c sids (record_signal c sid "IGNORE" t)

pub retrieve_all : Settings → ℕ → List String → Tracker → Tracker
unfolding record_retrieval
retrieve_all c now [] t = t
retrieve_all c now (sid ∷ sids) t = retrieve_all c now sids (record_retrieval c now sid t)

-- The second query comes before the window of the first is over.
pub is_rapid : Settings → ℕ → Option ℕ → Bool
is_rapid c now none = false
is_rapid c now (some ts) = ltb now (ts + c.ignore_window_sec)

pub on_semantic_query : Settings → ℕ → List String → Tracker → Tracker
unfolding ignore_all retrieve_all is_rapid
on_semantic_query c now returned_ids t =
    let t' =
      if is_rapid c now t.last_semantic_ts
      then ignore_all c t.last_semantic_ids t
      else retrieve_all c now t.last_semantic_ids t in
    record t' { last_semantic_ts = some now; last_semantic_ids = returned_ids }

pub on_get : Settings → ℕ → String → Tracker → Tracker
unfolding record_retrieval
on_get c now session_id t = record_retrieval c now session_id t

-- On an empty text nothing is mentioned.
pub on_response : Settings → (String → Bool) → List String → Tracker → Tracker
unfolding record_signal
on_response c mentioned [] t = t
on_response c mentioned (sid ∷ sids) t =
    on_response c mentioned sids (if mentioned sid then record_signal c sid "USE" t else t)

pub reset_session : Tracker → Tracker
reset_session t = record t {
  retrieval_history = [];
  last_semantic_ts = none;
  last_semantic_ids = [];
}
