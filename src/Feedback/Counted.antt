-- ===== src/Feedback/Counted.antt =====
-- The uses of a session are its retrievals and its mentions, and its score keeps to its bound.
use mnemostroma.Prelude.{
  ℕ, ◌+◌, ◌≡◌, refl, ◌∙◌, sym, ap, String, Bool, true, false, Option, none, some, List, [], ◌∷◌,
  ◌++◌, arith, ◌==◌, ==_iff, string_eq, ltb, leb, if◌then◌else◌, length, length-append, is_some,
  contains, Bool-cases, true≢false, inl, inr,
}
use mnemostroma.Prelude.Dict.{Dict, get, put, get-put}
use mnemostroma.Feedback.{
  Scored, Settings, Tracker, scored, put_scored, record_signal, times_or_none, record_retrieval,
  ignore_all, retrieve_all, is_rapid, on_semantic_query, on_get,
}

abbrev uses_in : Option Scored → ℕ
uses_in none = 0
uses_in (some sb) = sb.use_count

-- The uses of a session in RAM.
abbrev pub uses : Tracker → String → ℕ
uses t k = uses_in (get t.ram_index k)

-- The retrievals of a session since the last reset.
abbrev pub retrievals : Tracker → String → ℕ
retrievals t k = length (times_or_none (get t.retrieval_history k))

abbrev pub in_ram : Tracker → String → Bool
in_ram t k = is_some (get t.ram_index k)

abbrev delta : String → ℕ
delta signal = if contains signal ("USE" ∷ "DEEP_USE" ∷ "REVISIT" ∷ []) then 1 else 0

uses-scored :
    (c : Settings) (signal : String) (sb : Scored)
    → (scored c signal sb).use_count ≡ sb.use_count + delta signal
unfolding scored
uses-scored c signal sb =
    elim (Bool-cases (contains signal ("USE" ∷ "DEEP_USE" ∷ "REVISIT" ∷ []))) [
      | inl e ↦ rw e refl
      | inr e ↦ rw e (omega arith)
    ]

uses-if :
    (b : Bool) (x : Scored) (y : Option Scored) (n d : ℕ)
    → (b ≡ true → x.use_count ≡ n + d)
    → uses_in y ≡ n
    → uses_in (if b then some x else y) ≡ n + (if b then d else 0)
uses-if true x y n d f g = f refl
uses-if false x y n d f g = g ∙ omega arith

ram-if :
    (b : Bool) (x : Scored) (y : Option Scored)
    → is_some y ≡ true
    → is_some (if b then some x else y) ≡ true
ram-if true x y h = refl
ram-if false x y h = h

absent : (o : Option Scored) → o ≡ none → is_some o ≡ true → ⊥
absent o e h = true≢false (sym h ∙ ap is_some e)

uses_none : (b : Bool) (n d : ℕ) → (b ≡ true → ⊥) → n ≡ n + (if b then d else 0)
uses_none true n d f = absurd (f refl)
uses_none false n d f = omega arith

-- A signal to a session counts for it, and for no other.
signal_counts :
    (c : Settings) (sid signal : String) (t : Tracker) (k : String) (o : Option Scored)
    → get t.ram_index sid ≡ o
    → in_ram t k ≡ true
    → let ram = put_scored c sid signal t.ram_index o in
      (uses_in (get ram k) ≡ uses t k + (if sid == k then delta signal else 0))
      × (is_some (get ram k) ≡ true)
unfolding put_scored
signal_counts c sid signal t k none e h = (
  uses_none (sid == k) (uses t k) (delta signal) (λ q.
      absent (get t.ram_index k) (sym (ap (λ i. get t.ram_index i) ((==_iff sid k).0 q)) ∙ e) h),
  h,
)
signal_counts c sid signal t k (some sb) e h =
    let sb' : Scored = scored c signal sb in
    let found : get (put t.ram_index sid sb') k
        ≡ (if sid == k then some sb' else get t.ram_index k) =
      get-put t.ram_index sid k sb' in
    (
      ap uses_in found
          ∙ uses-if (sid == k) sb' (get t.ram_index k) (uses t k) (delta signal)
              (λ q.
                uses-scored c signal sb
                ∙ ap (λ n. n + delta signal)
                    (sym (ap (λ i. uses t i) (sym ((==_iff sid k).0 q)) ∙ ap uses_in e)))
              refl,
      ap is_some found ∙ ram-if (sid == k) sb' (get t.ram_index k) h,
    )

one_more :
    (b : Bool) (times : List ℕ) (o : Option (List ℕ)) (now : ℕ)
    → (b ≡ true → times ≡ times_or_none o)
    → length (times_or_none (if b then some (times ++ now ∷ []) else o))
      ≡ length (times_or_none o) + (if b then 1 else 0)
unfolding times_or_none
one_more true times o now f = omega (arith, length-append times (now ∷ []), ap length (f refl))
one_more false times o now f = omega arith

retrievals-put :
    (h : Dict String (List ℕ)) (sid k : String) (now : ℕ)
    → length (times_or_none (get (put h sid (times_or_none (get h sid) ++ now ∷ [])) k))
      ≡ length (times_or_none (get h k)) + (if sid == k then 1 else 0)
retrievals-put h sid k now =
    ap (λ o. length (times_or_none o)) (get-put h sid k (times_or_none (get h sid) ++ now ∷ []))
    ∙ one_more (sid == k) (times_or_none (get h sid)) (get h k) now
        (λ q. ap (λ i. times_or_none (get h i)) ((==_iff sid k).0 q))

delta-use : (b : Bool) → delta (if b then "REVISIT" else "USE") ≡ 1
delta-use true = refl
delta-use false = refl

-- From one tracker to another, uses and retrievals of a session in RAM have grown by a number.
pub record IsGrown (t t' : Tracker) (k : String) (n : ℕ) : Type 0 where
  pub more_uses : uses t' k ≡ uses t k + n
  pub more_retrievals : retrievals t' k ≡ retrievals t k + n
  pub still_in_ram : in_ram t' k ≡ true

record_retrieval-IsGrown :
    (c : Settings) (now : ℕ) (sid : String) (t : Tracker) (k : String)
    → in_ram t k ≡ true
    → IsGrown t (record_retrieval c now sid t) k (if sid == k then 1 else 0)
unfolding record_retrieval record_signal
record_retrieval-IsGrown c now sid t k h =
    let times : List ℕ = times_or_none (get t.retrieval_history sid) ++ now ∷ [] in
    let signal : String = if leb c.revisit_threshold (length times) then "REVISIT" else "USE" in
    let counts = signal_counts c sid signal t k (get t.ram_index sid) refl h in
    record {
      more_uses = omega (
        arith,
        counts.0,
        ap (λ d. if sid == k then d else 0) (delta-use (leb c.revisit_threshold (length times))),
      );
      more_retrievals = retrievals-put t.retrieval_history sid k now;
      still_in_ram = counts.1;
    }

IsGrown-more :
    {t u v : Tracker} {k : String} {m n : ℕ}
    → IsGrown t u k m
    → IsGrown u v k n
    → IsGrown t v k (m + n)
IsGrown-more a b = record {
  more_uses = omega (arith, a.more_uses, b.more_uses);
  more_retrievals = omega (arith, a.more_retrievals, b.more_retrievals);
  still_in_ram = b.still_in_ram;
}

no_more : (b : Bool) → (if b then delta "IGNORE" else 0) ≡ 0
no_more true = refl
no_more false = refl

record_ignored-IsGrown :
    (c : Settings) (sid : String) (t : Tracker) (k : String)
    → in_ram t k ≡ true
    → IsGrown t (record_signal c sid "IGNORE" t) k 0
unfolding record_signal
record_ignored-IsGrown c sid t k h =
    let counts = signal_counts c sid "IGNORE" t k (get t.ram_index sid) refl h in
    record {
      more_uses = omega (arith, counts.0, no_more (sid == k));
      more_retrievals = omega arith;
      still_in_ram = counts.1;
    }

same : (t : Tracker) (k : String) → in_ram t k ≡ true → IsGrown t t k 0
same t k h = record { more_uses = omega arith; more_retrievals = omega arith; still_in_ram = h }

ignore_all-IsGrown :
    (c : Settings) (sids : List String) (t : Tracker) (k : String)
    → in_ram t k ≡ true
    → IsGrown t (ignore_all c sids t) k 0
unfolding ignore_all
ignore_all-IsGrown c [] t k h = same t k h
ignore_all-IsGrown c (sid ∷ sids) t k h =
    let a : IsGrown t (record_signal c sid "IGNORE" t) k 0 = record_ignored-IsGrown c sid t k h in
    IsGrown-more a (ignore_all-IsGrown c sids (record_signal c sid "IGNORE" t) k a.still_in_ram)

-- How often an id stands in a list.
abbrev pub occurrences : String → List String → ℕ
occurrences k [] = 0
occurrences k (sid ∷ sids) = (if sid == k then 1 else 0) + occurrences k sids

retrieve_all-IsGrown :
    (c : Settings) (now : ℕ) (sids : List String) (t : Tracker) (k : String)
    → in_ram t k ≡ true
    → IsGrown t (retrieve_all c now sids t) k (occurrences k sids)
unfolding retrieve_all
retrieve_all-IsGrown c now [] t k h = same t k h
retrieve_all-IsGrown c now (sid ∷ sids) t k h =
    let a : IsGrown t (record_retrieval c now sid t) k (if sid == k then 1 else 0) =
      record_retrieval-IsGrown c now sid t k h in
    IsGrown-more a (retrieve_all-IsGrown c now sids (record_retrieval c now sid t) k a.still_in_ram)

-- What an agent calls.
pub data Call : Type 0 where
  query : ℕ → List String → Call
  get_one : ℕ → String → Call

abbrev pub run : Settings → List Call → Tracker → Tracker
run c [] t = t
run c (query now ids ∷ calls) t = run c calls (on_semantic_query c now ids t)
run c (get_one now sid ∷ calls) t = run c calls (on_get c now sid t)

-- What a query at a time counts for the answer before it: nothing within the window.
abbrev pub counted : ℕ → ℕ → Option ℕ → ℕ → ℕ
counted window now none n = n
counted window now (some ts) n = if ltb now (ts + window) then 0 else n

-- The uses of an id that a sequence of calls shows, from the time and the ids of the last answer. A get
-- shows one of its id. A query shows those of the answer before it, unless it comes within the window.
abbrev pub shown : ℕ → String → Option ℕ → List String → List Call → ℕ
shown window k last_ts last_ids [] = 0
shown window k last_ts last_ids (query now ids ∷ calls) =
    counted window now last_ts (occurrences k last_ids) + shown window k (some now) ids calls
shown window k last_ts last_ids (get_one now sid ∷ calls) =
    (if sid == k then 1 else 0) + shown window k last_ts last_ids calls

either :
    (b : Bool) {t u v : Tracker} {k : String} {n : ℕ}
    → IsGrown t u k 0
    → IsGrown t v k n
    → IsGrown t (if b then u else v) k (if b then 0 else n)
either true a d = a
either false a d = d

answered :
    (c : Settings) (now : ℕ) (o : Option ℕ) {t u v : Tracker} {k : String} {n : ℕ}
    → IsGrown t u k 0
    → IsGrown t v k n
    → IsGrown t (if is_rapid c now o then u else v) k (counted c.ignore_window_sec now o n)
unfolding is_rapid
answered c now none a d = d
answered c now (some ts) a d = either (ltb now (ts + c.ignore_window_sec)) a d

on_semantic_query-IsGrown :
    (c : Settings) (now : ℕ) (ids : List String) (t : Tracker) (k : String)
    → in_ram t k ≡ true
    → IsGrown t
        (on_semantic_query c now ids t)
        k
        (counted c.ignore_window_sec now t.last_semantic_ts (occurrences k t.last_semantic_ids))
unfolding on_semantic_query
on_semantic_query-IsGrown c now ids t k h =
    let a =
      answered c now t.last_semantic_ts (ignore_all-IsGrown c t.last_semantic_ids t k h)
        (retrieve_all-IsGrown c now t.last_semantic_ids t k h) in
    record {
      more_uses = a.more_uses;
      more_retrievals = a.more_retrievals;
      still_in_ram = a.still_in_ram;
    }

-- After any sequence of semantic queries and gets, whatever their times, a session that was in RAM is still
-- there, and the uses counted and the retrievals noted for it have both grown by exactly what the
-- calls show: one for each get of it, and one for each place that it has in the answer before a query,
-- except before a query that comes within the window, which counts nothing.
pub run_lem :
    (c : Settings) (calls : List Call) (t : Tracker) (k : String)
    → in_ram t k ≡ true
    → IsGrown t
        (run c calls t)
        k
        (shown c.ignore_window_sec k t.last_semantic_ts t.last_semantic_ids calls)
unfolding on_get on_semantic_query record_retrieval record_signal
run_lem c [] t k h = same t k h
run_lem c (query now ids ∷ calls) t k h =
    let a = on_semantic_query-IsGrown c now ids t k h in
    IsGrown-more a (run_lem c calls (on_semantic_query c now ids t) k a.still_in_ram)
run_lem c (get_one now sid ∷ calls) t k h =
    let a = record_retrieval-IsGrown c now sid t k h in
    IsGrown-more a (run_lem c calls (on_get c now sid t) k a.still_in_ram)
