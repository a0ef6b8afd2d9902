-- ===== src/Gateway/Admission.antt =====
-- gateway/admission.py and gateway/admission_policy.py: bounded admission of provider dispatches.
-- `try_acquire` holds the lock from its tests to its increments, so it is one step.
mod Tests
pub mod Bounds
use mnemostroma.Prelude.{
  ℕ, ◌+◌, ◌-◌, Bool, true, false, ◌&&◌, ◌||◌, Option, none, some, leb, ltb, if◌then◌else◌,
}
use mnemostroma.Prelude.Result.{Result, ok, err, raise_if, ◌>>◌}

pub record DispatchAdmission : Type 0 where
  pub max_total : ℕ
  pub max_memory : ℕ
  pub current_total : ℕ
  pub current_memory : ℕ

pub init : ℕ → ℕ → DispatchAdmission
init max_total max_memory = record {
  max_total = max_total;
  max_memory = max_memory;
  current_total = 0;
  current_memory = 0;
}

-- A permit remembers whether it stands for a request with active memory.
pub record DispatchPermit : Type 0 where
  pub memory_active : Bool

unfoldable pub try_acquire : Bool → DispatchAdmission → Option DispatchPermit × DispatchAdmission
try_acquire memory_active a =
    if leb a.max_total a.current_total
    then (none, a)
    else if memory_active && leb a.max_memory a.current_memory
    then (none, a)
    else (
      some (record { memory_active = memory_active }),
      record a {
        current_total = a.current_total + 1;
        current_memory = if memory_active then a.current_memory + 1 else a.current_memory;
      },
    )

-- `DispatchPermit.__aexit__`, through `_release`. The counts are Python ints, which can fall below
-- zero, where a subtraction here stops.
unfoldable pub release : DispatchPermit → DispatchAdmission → DispatchAdmission
release p a = record a {
  current_total = a.current_total - 1;
  current_memory = if p.memory_active then a.current_memory - 1 else a.current_memory;
}

pub data AdmissionError : Type 0 where
  bad_dispatch_limit bad_memory_limit : AdmissionError

-- `validate_admission_config`, for limits that are ints.
pub validate_admission_config : ℕ → ℕ → Result AdmissionError (Unit {0})
validate_admission_config d m = do
  raise_if (ltb d 1 || ltb 64 d) bad_dispatch_limit
  raise_if (ltb m 1 || ltb d m) bad_memory_limit
