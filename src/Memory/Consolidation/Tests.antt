-- ===== src/Memory/Consolidation/Tests.antt =====
-- A pinned anchor and an idle one; a session with a deadline that has passed, and a new one.
use mnemostroma.Prelude.{
  ℕ, ◌+◌, ◌*◌, ◌≡◌, refl, true, false, none, some, List, [], ◌∷◌, arith, length, map, select, All,
  leb,
}
use mnemostroma.Memory.Consolidation.{
  Anchor, run_anchor_decay, is_due, Session, update_sessions, decay_facts_limit, last_access,
}
use mnemostroma.Memory.Consolidation.Passes.{IsTrimmed, passes, IsIdle}
use mnemostroma.Memory.Consolidation.Advance.{step, id_of, IsPassed, run_anchor_decay_lem}

abbrev day : ℕ
day = 86400

abbrev idle : Anchor ℕ
idle = record {
  anchor_id = "a";
  user_pin = false;
  decay_level = 0;
  last_accessed_at = 0;
  created_at = 10;
  updated_at = 10;
  key_facts = 1 ∷ 2 ∷ 3 ∷ 4 ∷ [];
}

abbrev pinned : Anchor ℕ
pinned = record idle { anchor_id = "b"; user_pin = true }

abbrev two : List (Anchor ℕ)
two = idle ∷ pinned ∷ []

abbrev month : ℕ
month = 10 + 30 * day

one_pass :
    map (λ (a : Anchor ℕ). a.decay_level) (run_anchor_decay true 30 month two).anchors ≡ 1 ∷ 0 ∷ []
unfolding run_anchor_decay
one_pass = refl

-- The threshold is of a month, but the second and third steps need no further waiting.
three_passes :
    passes true 30 (month ∷ month ∷ month ∷ []) two
    ≡ record idle { decay_level = 3; updated_at = month; key_facts = [] } ∷ pinned ∷ []
unfolding run_anchor_decay
three_passes = refl

run_anchor_decay_lem_example :
    let pass = run_anchor_decay true 30 month two in
    let due = map (step 30 month) (select (is_due 30 month) two) in
    (pass.anchors ≡ map (step 30 month) two)
    × All (λ a. IsPassed 30 month a (step 30 month a)) two
    × (pass.saved ≡ due)
    × (pass.nulled ≡ map id_of (select (λ (a : Anchor ℕ). leb 2 a.decay_level) due))
    × (pass.decayed ≡ length (select (is_due 30 month) two))
run_anchor_decay_lem_example = run_anchor_decay_lem true 30 month two

two-IsTrimmed : All IsTrimmed two
unfolding decay_facts_limit
two-IsTrimmed = ((omega arith, omega arith), ((omega arith, omega arith), tt))

abbrev thrice : List ℕ
thrice = month ∷ month ∷ (month + 1) ∷ []

idle-IsTrimmed : All (λ a. IsTrimmed a × IsIdle 30 thrice a) (idle ∷ [])
unfolding decay_facts_limit last_access
idle-IsTrimmed =
    (((omega arith, omega arith), (refl, (omega arith, (omega arith, (omega arith, tt))))), tt)

abbrev sessions : List Session
sessions =
    record {
      session_id = "s";
      created_at = 5;
      age_signal = "fresh";
      deadline_ts = some 50;
      urgency_active = true;
      urgency_expired = false;
    }
    ∷ record {
      session_id = "t";
      created_at = month;
      age_signal = "fresh";
      deadline_ts = none;
      urgency_active = false;
      urgency_expired = false;
    }
    ∷ []

signals :
    map (λ (s : Session). s.age_signal) (update_sessions true month sessions).0
    ≡ "stale" ∷ "fresh" ∷ []
unfolding update_sessions
signals = refl
