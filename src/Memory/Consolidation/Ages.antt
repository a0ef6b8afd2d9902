-- ===== src/Memory/Consolidation/Ages.antt =====
-- The pass over the sessions: deadlines that have passed, ages, and what is persisted.
use mathlib.Core.Path.{subst}
use mnemostroma.Prelude.{
  ℕ, ◌≡◌, refl, ◌∙◌, sym, ap, String, Bool, true, false, not, ◌&&◌, ◌||◌, Option, List, [], ◌∷◌,
  ◌++◌, arith, if◌then◌else◌, map, concat, All, Bool-cases, inl, inr,
}
use mnemostroma.Memory.Consolidation.{
  Session, is_past, age_signal_of, expire, update_session, effects_of, update_sessions,
}

-- The session has the age of its creation, and no deadline that has passed unnoticed.
pub record IsCurrent (now : ℕ) (s : Session) : Type 0 where
  pub aged : s.age_signal ≡ age_signal_of now s.created_at
  pub noticed : is_past now s.deadline_ts ≡ true → s.urgency_expired ≡ true

update_session-IsCurrent : (now : ℕ) (s : Session) → IsCurrent now (update_session now s)
unfolding update_session expire
update_session-IsCurrent now s =
    let s' : Session = record s { age_signal = age_signal_of now s.created_at } in
    elim (Bool-cases (is_past now s.deadline_ts && not s.urgency_expired)) [
      | inl e ↦ rw e (record { aged = refl; noticed = λ p. refl })
      | inr e ↦ rw e (record { aged = refl; noticed = λ p. ground (arith, e, p) })
    ]

noticed_before : (p e : Bool) → (p ≡ true → e ≡ true) → (p && not e) ≡ false
noticed_before true e f = ap not (f refl)
noticed_before false e f = refl

update_session-again : (now : ℕ) (s : Session) → IsCurrent now s → update_session now s ≡ s
unfolding update_session expire
update_session-again now s h =
    ap
      (λ b.
        let s' : Session = record s { age_signal = age_signal_of now s.created_at } in
        if b then record s' { urgency_active = false; urgency_expired = true } else s')
      (noticed_before (is_past now s.deadline_ts) s.urgency_expired h.noticed)
    ∙ ap (λ (signal : String). record s { age_signal = signal }) (sym h.aged)

update_sessions-map :
    (persistence : Bool) (now : ℕ) (ss : List Session)
    → ((update_sessions persistence now ss).0 ≡ map (update_session now) ss)
      × ((update_sessions persistence now ss).1
          ≡ (if persistence then concat (map (λ s. effects_of (update_session now s)) ss) else []))
unfolding update_sessions
update_sessions-map persistence now [] = (refl, ground arith)
update_sessions-map true now (s ∷ ss) =
    let (sessions, effects) = update_sessions-map true now ss in
    (
      ap (λ l. update_session now s ∷ l) sessions,
      ap (λ l. effects_of (update_session now s) ++ l) effects,
    )
update_sessions-map false now (s ∷ ss) =
    let (sessions, effects) = update_sessions-map false now ss in
    (ap (λ l. update_session now s ∷ l) sessions, effects)

-- What identifies a session, its deadline, and whether the deadline has been found to be over.
abbrev pub state_of : Session → String × ℕ × Option ℕ × Bool
state_of s = (s.session_id, s.created_at, s.deadline_ts, s.urgency_expired)

abbrev pub state_after : ℕ → Session → String × ℕ × Option ℕ × Bool
state_after now s =
    (s.session_id, s.created_at, s.deadline_ts, s.urgency_expired || is_past now s.deadline_ts)

update_session-state : (now : ℕ) (s : Session) → state_of (update_session now s) ≡ state_after now s
unfolding update_session expire
update_session-state now s =
    elim (Bool-cases (is_past now s.deadline_ts && not s.urgency_expired)) [
      | inl e ↦ rw e (ap (λ b. (s.session_id, s.created_at, s.deadline_ts, b)) (ground (arith, e)))
      | inr e ↦ rw e (ap (λ b. (s.session_id, s.created_at, s.deadline_ts, b)) (ground (arith, e)))
    ]

All-IsCurrent : (now : ℕ) (ss : List Session) → All (IsCurrent now) (map (update_session now) ss)
All-IsCurrent now [] = tt
All-IsCurrent now (s ∷ ss) = (update_session-IsCurrent now s, All-IsCurrent now ss)

map-state :
    (now : ℕ) (ss : List Session)
    → map state_of (map (update_session now) ss) ≡ map (state_after now) ss
map-state now [] = refl
map-state now (s ∷ ss) =
    ap (λ t. t ∷ map state_of (map (update_session now) ss)) (update_session-state now s)
    ∙ ap (λ l. state_after now s ∷ l) (map-state now ss)

map-effects :
    (now : ℕ) (ss : List Session)
    → map (λ s. effects_of (update_session now s)) ss ≡ map effects_of (map (update_session now) ss)
map-effects now [] = refl
map-effects now (s ∷ ss) = ap (λ l. effects_of (update_session now s) ∷ l) (map-effects now ss)

map-again :
    (now : ℕ) (ss : List Session) → All (IsCurrent now) ss → map (update_session now) ss ≡ ss
map-again now [] h = refl
map-again now (s ∷ ss) h =
    ap (λ t. t ∷ map (update_session now) ss) (update_session-again now s h.0)
    ∙ ap (λ l. s ∷ l) (map-again now ss h.1)

-- A pass over the sessions, with a persistence layer: every session has afterwards the age of its creation
-- and no deadline that has passed unnoticed; its identity and its deadline are kept, and it is
-- expired when it was, or when the deadline has passed; every session is queued, in order, and
-- after each expired one there is a flush. A second pass at the same time changes no
-- session, and asks for all the same writes and flushes again.
pub update_sessions_lem :
    (now : ℕ) (ss : List Session)
    → let (sessions, effects) = update_sessions true now ss in
      All (IsCurrent now) sessions
      × (map state_of sessions ≡ map (state_after now) ss)
      × (effects ≡ concat (map effects_of sessions))
      × ((update_sessions true now sessions).0 ≡ sessions)
      × ((update_sessions true now sessions).1 ≡ effects)
update_sessions_lem now ss =
    let (same, asked) = update_sessions-map true now ss in
    let sessions : List Session = (update_sessions true now ss).0 in
    let current : All (IsCurrent now) sessions =
      subst (All (IsCurrent now)) (sym same) (All-IsCurrent now ss) in
    let effects : (update_sessions true now ss).1 ≡ concat (map effects_of sessions) =
      asked ∙ ap concat (map-effects now ss) ∙ ap (λ l. concat (map effects_of l)) (sym same) in
    let (same', asked') = update_sessions-map true now sessions in
    let again : map (update_session now) sessions ≡ sessions = map-again now sessions current in
    (
      current,
      ap (map state_of) same ∙ map-state now ss,
      effects,
      same' ∙ again,
      asked'
          ∙ ap concat (map-effects now sessions)
          ∙ ap (λ l. concat (map effects_of l)) again
          ∙ sym effects,
    )
