-- ===== src/Integration/Proxy.antt =====
-- integration/proxy.py: ConductorProxy, which makes the memory block of a prompt. Text is its code
-- points. The judgement of a brief, its normal form, the ratio of difflib, the format of a time and
-- the semantic search are arguments; the search does not raise. The block is kept in its sections,
-- in place of the XML that the source joins from them. Times are whole milliseconds. A call of
-- `inject` is one step: a call that another one overlaps at one of its awaits is not modelled.
pub mod Dedupe
pub mod Injected
mod Tests
use mnemostroma.Prelude.{
  ℕ, ◌+◌, ◌-◌, String, Bool, true, false, not, ◌&&◌, ◌||◌, Option, none, some, List, [], ◌∷◌, ◌++◌,
  ◌==◌, string_eq, ◌=ℕ◌, ltb, if◌then◌else◌, length, take, drop, select, any, map, concat, contains,
}
use mnemostroma.Prelude.Dict.{Dict, values}
use mnemostroma.Prelude.Text.{codes}
use mnemostroma.Prelude.SortDown.{sort_down}
use mnemostroma.Memory.Experience.{Cluster, Settings, SignalType, intuition_signals}

abbrev pub Text : Type 0
Text = List ℕ

-- The fields of a session that are read.
pub record Session : Type 0 where
  pub session_id : String
  pub brief : Text
  pub importance : String
  pub conflict_flag : Bool
  pub created_at : ℕ
  pub tags : List String

-- The title is the id where the item has none.
pub record Urgency : Type 0 where
  pub expired : Bool
  pub title : Text
  pub deadline_ts : Option ℕ

-- `similar` is that the ratio of two normal forms is above 0.85.
pub record Texts : Type 0 where
  pub is_quality_brief : Text → Bool
  pub normalize_dedup : Text → Text
  pub similar : Text → Text → Bool
  pub isoformat : ℕ → Text

-- A signal of the evaluator.
pub record Signal : Type 0 where
  pub signal : String
  pub tag : String
  pub score : ℕ

pub is_blank : Text → Bool
is_blank [] = true
is_blank (c ∷ cs) = false

pub same_text : Text → Text → Bool
same_text [] [] = true
same_text [] (d ∷ ds) = false
same_text (c ∷ cs) [] = false
same_text (c ∷ cs) (d ∷ ds) = c =ℕ d && same_text cs ds

-- A brief is passed over on the keys that were seen.
pub is_repeated : Texts → List Text → Text → Bool
unfolding is_blank same_text
is_repeated t seen key = is_blank key || (any (same_text key) seen || any (t.similar key) seen)

-- The loop of `_dedupe_briefs`, from the keys that were seen.
pub dedupe_from : Texts → List Text → List Text → List Text
unfolding is_repeated
dedupe_from t seen [] = []
dedupe_from t seen (b ∷ bs) = elim (is_repeated t seen (t.normalize_dedup b)) [
  | true ↦ dedupe_from t seen bs
  | false ↦ b ∷ dedupe_from t (t.normalize_dedup b ∷ seen) bs
]

pub dedupe_briefs : Texts → List Text → List Text
unfolding dedupe_from
dedupe_briefs t briefs = dedupe_from t [] briefs

-- `f"- {text}"`
pub item : Text → Text
item text = 45 ∷ 32 ∷ text

-- The lines of the sessions with a good brief that satisfy a test.
pub lines_of : Texts → (Session → Bool) → List Session → List Text
unfolding item
lines_of t test sessions =
    map (λ (s : Session). item s.brief)
      (select (λ s. t.is_quality_brief s.brief && test s) sessions)

pub is_principle : Session → Bool
is_principle s = s.importance == "principle"

pub is_decision : Session → Bool
is_decision s = contains s.importance ("critical" ∷ "important" ∷ [])

-- `f"- {title} (Due: {dt_str})"`, or without the time when there is none or it is zero.
deadline_line : Texts → Urgency → Text
unfolding item
deadline_line t u = elim u.deadline_ts [
  | none ↦ item u.title
  | some ts ↦
      if ts =ℕ 0
      then item u.title
      else item (u.title ++ (32 ∷ 40 ∷ 68 ∷ 117 ∷ 101 ∷ 58 ∷ 32 ∷ (t.isoformat ts ++ 41 ∷ [])))
]

pub deadline_lines : Texts → List Urgency → List Text
unfolding deadline_line
deadline_lines t us = map (deadline_line t) (select (λ u. not u.expired) us)

-- The first brief of a good session.
pub first_brief : Texts → List Session → Option Text
first_brief t [] = none
first_brief t (s ∷ ss) = if t.is_quality_brief s.brief then some s.brief else first_brief t ss

pub protocol_block : Text
protocol_block =
    codes
      "<agent_protocol>\nMANDATORY — past work / decisions referenced: ctx_semantic(q) · ctx_anchors(type) · ctx_search(tags)\nMANDATORY — session end with decision or open task: ctx_bridge()\nFORBIDDEN: claim no context without ctx_semantic() first.\nYou do not write memory. You only read. Reading is not optional.\n</agent_protocol>"

-- The protocol and the sections behind it. A section without a line is left out of the text.
pub record StaticCache : Type 0 where
  pub protocol : Text
  pub decisions : List Text
  pub principles : List Text
  pub conflicts : List Text
  pub deadlines : List Text
  pub last_session : Option Text

pub build_static_cache : Texts → List Session → Dict String Urgency → StaticCache
unfolding lines_of dedupe_briefs is_principle is_decision deadline_lines first_brief protocol_block
build_static_cache t ram urgency_index =
    let sessions = sort_down (λ (s : Session). s.created_at) ram in
    record {
      protocol = protocol_block;
      decisions =
          take 7
            (dedupe_briefs t (lines_of t (λ s. not (is_principle s) && is_decision s) sessions));
      principles = take 5 (dedupe_briefs t (lines_of t is_principle sessions));
      conflicts = take 5 (dedupe_briefs t (lines_of t (λ (s : Session). s.conflict_flag) sessions));
      deadlines = deadline_lines t (values urgency_index);
      last_session = first_brief t sessions;
    }

pub is_nil {ℓ} : {A : Type ℓ} → List A → Bool
is_nil [] = true
is_nil (x ∷ xs) = false

is_missing : Option Text → Bool
is_missing none = true
is_missing (some text) = is_blank text

-- `not self._static_cache`: the text of the cache is empty.
pub is_empty : StaticCache → Bool
unfolding is_nil is_missing is_blank
is_empty c =
    is_blank c.protocol
    && (is_nil c.decisions
        && (is_nil c.principles
            && (is_nil c.conflicts && (is_nil c.deadlines && is_missing c.last_session))))

-- The proxy with the parts of SystemContext that it changes. The cache of a
-- new proxy is none.
pub record Proxy : Type 0 where
  pub static_cache : Option StaticCache
  pub cache_updated_at : ℕ
  pub last_injected_ids : List String
  pub subconscious_signals : List Signal

-- The dynamic sections of a block, without the texts of the messages.
pub record Sections : Type 0 where
  pub static : StaticCache
  pub relevant : List Session
  pub intuition : List (String × SignalType)
  pub subconscious : List Signal

pub data Context : Type 0 where
  first_session : Context
  memory_context : Sections → Context

pub record MemoryBlock : Type 0 where
  pub context : Context
  pub has_tools : Bool
  pub cached : Bool

-- What the answer of the semantic search and the settings say for one prompt, and the experience layer
-- with its clusters where it is enabled.
pub record Prompt {ℓ} (V : Type ℓ) : Type ℓ where
  pub now : ℕ
  pub relevant_sessions : List Session
  pub experience : Option (Settings × Dict String (Cluster V))
  pub include_tools : Bool
  pub pure_context : Bool
  pub tools_enabled : Bool

-- `list(dict.fromkeys(tags))`, from the tags that were seen.
distinct_from : List String → List String → List String
distinct_from seen [] = []
distinct_from seen (tag ∷ tags) = elim (contains tag seen) [
  | true ↦ distinct_from seen tags
  | false ↦ tag ∷ distinct_from (tag ∷ seen) tags
]

-- The tags of the last ten sessions, without repetitions, at most fifteen.
pub active_tags : List Session → List String
unfolding distinct_from
active_tags ram =
    take 15 (distinct_from [] (concat (map (λ (s : Session). s.tags) (drop (length ram - 10) ram))))

-- One more than in the source, where an unknown signal has -1.
pub priority : String → ℕ
priority signal =
    if signal == "TENSION"
    then 8
    else if signal == "caution"
    then 7
    else if signal == "REPEL"
    then 6
    else if signal == "AMBIVALENT"
    then 5
    else if signal == "ATTRACT"
    then 4
    else if signal == "confidence"
    then 3
    else if signal == "DO_THIS"
    then 2
    else if signal == "AVOID_THIS"
    then 1
    else 0

pub not_empty : Option StaticCache → Option StaticCache
unfolding is_empty
not_empty none = none
not_empty (some c) = if is_empty c then none else some c

-- The cache is rebuilt when it is older than five seconds, or empty.
pub is_fresh : ℕ → Proxy → Option StaticCache
unfolding not_empty
is_fresh now p = if ltb (p.cache_updated_at + 5000) now then none else not_empty p.static_cache

-- The static sections, whether they are cached, and when they were made.
pub cache_for :
    Texts → List Session → Dict String Urgency → ℕ → ℕ → Option StaticCache → StaticCache × Bool × ℕ
unfolding build_static_cache
cache_for t ram urgency_index now updated_at none =
    (build_static_cache t ram urgency_index, false, now)
cache_for t ram urgency_index now updated_at (some cache) = (cache, true, updated_at)

module _ {ℓ} {V : Type ℓ} where
  pub intuition_for :
      List Session → Option (Settings × Dict String (Cluster V)) → List (String × SignalType)
  unfolding active_tags
  intuition_for ram none = []
  intuition_for ram (some (settings, clusters)) =
      intuition_signals settings clusters (active_tags ram)

  -- With an empty cache and no relevant session, the message of a first session.
  pub inject : Texts → List Session → Dict String Urgency → Prompt V → Proxy → MemoryBlock × Proxy
  unfolding is_fresh cache_for intuition_for priority is_empty is_nil
  inject t ram urgency_index q p =
      let (static, cached, updated_at) =
        cache_for t ram urgency_index q.now p.cache_updated_at (is_fresh q.now p) in
      let relevant = select (λ (s : Session). t.is_quality_brief s.brief) q.relevant_sessions in
      let sections : Sections = record {
        static = static;
        relevant = relevant;
        intuition = intuition_for ram q.experience;
        subconscious = sort_down (λ (s : Signal). priority s.signal) p.subconscious_signals;
      } in
      (
        record {
          context =
              if is_empty static && is_nil relevant then first_session else memory_context sections;
          has_tools = q.include_tools && (not q.pure_context && q.tools_enabled);
          cached = cached;
        },
        record {
          static_cache = some static;
          cache_updated_at = updated_at;
          last_injected_ids = map (λ (s : Session). s.session_id) relevant;
          subconscious_signals = [];
        },
      )
