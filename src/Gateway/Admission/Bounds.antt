-- ===== src/Gateway/Admission/Bounds.antt =====
-- Requests in any interleaving: the permits that are out, and the counts that stand for them.
use mnemostroma.Prelude.{
  ℕ, ◌+◌, ◌≤◌, ◌<◌, ◌≡◌, ◌↔◌, ◌⊎◌, Bool, true, false, none, some, is_some, List, [], ◌∷◌, ◌++◌,
  arith, length, if◌then◌else◌,
}
use mnemostroma.Prelude.Result.{ok}
use mnemostroma.Gateway.Admission.{
  DispatchAdmission, DispatchPermit, init, try_acquire, release, validate_admission_config,
}

-- The permits with active memory.
abbrev pub count_memory : List DispatchPermit → ℕ
count_memory [] = 0
count_memory (p ∷ ps) = (if p.memory_active then 1 else 0) + count_memory ps

count_memory-append :
    (ps qs : List DispatchPermit) → count_memory (ps ++ qs) ≡ count_memory ps + count_memory qs
count_memory-append [] qs = omega arith
count_memory-append (p ∷ ps) qs = omega (arith, count_memory-append ps qs)

length-middle :
    (ps qs : List DispatchPermit) (p : DispatchPermit)
    → length (ps ++ p ∷ qs) ≡ length (ps ++ qs) + 1
length-middle [] qs p = omega arith
length-middle (q ∷ ps) qs p = omega (arith, length-middle ps qs p)

count_memory-middle :
    (ps qs : List DispatchPermit) (p : DispatchPermit)
    → count_memory (ps ++ p ∷ qs) ≡ count_memory (ps ++ qs) + (if p.memory_active then 1 else 0)
count_memory-middle ps qs p =
    omega (arith, count_memory-append ps (p ∷ qs), count_memory-append ps qs)

-- The admission, with the permits whose `async with` block has not been left.
pub record World : Type 0 where
  pub admission : DispatchAdmission
  pub held : List DispatchPermit

pub data Step : World → World → Type 0 where
  -- a request is admitted
  acquire :
      {w : World} (memory_active : Bool) (p : DispatchPermit) {a : DispatchAdmission}
      → try_acquire memory_active w.admission ≡ (some p, a)
      → Step w (record { admission = a; held = p ∷ w.held })
  -- a request is turned away
  refuse :
      {w : World} (memory_active : Bool) {a : DispatchAdmission}
      → try_acquire memory_active w.admission ≡ (none, a)
      → Step w (record w { admission = a })
  -- any one of the permits that are out is given back
  give_back :
      {w v : World} (ps qs : List DispatchPermit) (p : DispatchPermit)
      → w.held ≡ ps ++ p ∷ qs
      → v ≡ record { admission = release p w.admission; held = ps ++ qs }
      → Step w v

pub data Reach (w : World) : World → Type 0 where
  here : Reach w w
  next : {u v : World} → Reach w u → Step u v → Reach w v

-- The counts are the permits that are out, and neither passes its limit.
pub record IsCounted (max_total max_memory : ℕ) (w : World) : Type 0 where
  pub total_limit : w.admission.max_total ≡ max_total
  pub memory_limit : w.admission.max_memory ≡ max_memory
  pub total_held : w.admission.current_total ≡ length w.held
  pub memory_held : w.admission.current_memory ≡ count_memory w.held
  pub total_bounded : w.admission.current_total ≤ max_total
  pub memory_bounded : w.admission.current_memory ≤ max_memory

Step-IsCounted : (t m : ℕ) {w v : World} → Step w v → IsCounted t m w → IsCounted t m v
unfolding try_acquire release
Step-IsCounted t m (acquire memory_active p e) h = ground arith
Step-IsCounted t m (refuse memory_active e) h = ground arith
Step-IsCounted t m {w} {v} (give_back ps qs p e f) h =
    ground (arith, length-middle ps qs p, count_memory-middle ps qs p)

-- From an admission with no permit out, in every interleaving of admissions, refusals and
-- releases: the two counts are exactly the numbers of permits out (so that a release never takes
-- a count below zero), and neither passes its configured limit.
pub Reach-IsCounted :
    (max_total max_memory : ℕ) {w : World}
    → Reach (record { admission = init max_total max_memory; held = [] }) w
    → IsCounted max_total max_memory w
unfolding init
Reach-IsCounted t m here = ground arith
Reach-IsCounted t m (next r s) = Step-IsCounted t m s (Reach-IsCounted t m r)

-- A request is turned away exactly when all slots are taken, or it has active memory and all
-- memory slots are taken; a refusal changes nothing.
pub try_acquire-none :
    (memory_active : Bool) (a : DispatchAdmission)
    → ((try_acquire memory_active a).0 ≡ none ↔ (
        (a.max_total ≤ a.current_total)
        ⊎ ((memory_active ≡ true) × (a.max_memory ≤ a.current_memory))))
      × ((is_some (try_acquire memory_active a).0 ≡ true) ⊎ ((try_acquire memory_active a).1 ≡ a))
unfolding try_acquire
try_acquire-none memory_active a = ground arith

-- Leaving the block of an admitted request restores the admission that it found.
pub release-try_acquire :
    (memory_active : Bool) (a : DispatchAdmission) (p : DispatchPermit)
    → (try_acquire memory_active a).0 ≡ some p
    → release p (try_acquire memory_active a).1 ≡ a
unfolding try_acquire release
release-try_acquire memory_active a p h = ground arith

-- An accepted configuration has a total limit of at most 64 and a memory limit from 1 to it; while
-- fewer permits than the total limit are out, a request without active memory is admitted.
pub validate_admits :
    (d m : ℕ) (w : World)
    → validate_admission_config d m ≡ ok tt
    → IsCounted d m w
    → length w.held < d
    → (a : DispatchAdmission) × (try_acquire false w.admission
        ≡ (some (record { memory_active = false }), a))
      × (d ≤ 64)
      × (1 ≤ m)
      × (m ≤ d)
unfolding try_acquire validate_admission_config
validate_admits d m w e v h = (
  record w.admission { current_total = w.admission.current_total + 1 },
  ground arith,
  ground arith,
  ground arith,
  ground arith,
)
