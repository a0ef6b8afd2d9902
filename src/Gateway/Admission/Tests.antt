-- ===== src/Gateway/Admission/Tests.antt =====
-- Concrete admissions.
use mnemostroma.Prelude.{◌≡◌, refl, true, false, some, [], ◌∷◌}
use mnemostroma.Prelude.Result.{ok}
use mnemostroma.Gateway.Admission.{
  DispatchAdmission, DispatchPermit, init, try_acquire, release, validate_admission_config,
}
use mnemostroma.Gateway.Admission.Bounds.{
  World, Reach, here, next, acquire, refuse, give_back, IsCounted, Reach-IsCounted,
}

abbrev unused : DispatchAdmission
unused = record { max_total = 2; max_memory = 1; current_total = 0; current_memory = 0 }

abbrev one_taken : DispatchAdmission
one_taken = record unused { current_total = 1; current_memory = 1 }

abbrev memory_permit : DispatchPermit
memory_permit = record { memory_active = true }

-- A request with memory is admitted, a second one is turned away, and one without memory is then
-- admitted while the first is given back.
abbrev after : World
after = record {
  admission = record unused { current_total = 1 };
  held = record { memory_active = false } ∷ [];
}

three_requests : Reach (record { admission = init 2 1; held = [] }) after
unfolding init try_acquire release
three_requests =
    next
      (next
        (next
          (next here
            (acquire {w = record { admission = unused; held = [] }} true memory_permit refl))
          (refuse {w = record { admission = one_taken; held = memory_permit ∷ [] }} true refl))
        (acquire {w = record { admission = one_taken; held = memory_permit ∷ [] }} false
          (record { memory_active = false }) refl))
      (give_back (record { memory_active = false } ∷ []) [] memory_permit refl refl)

Reach-IsCounted_example : IsCounted 2 1 after
Reach-IsCounted_example = Reach-IsCounted 2 1 three_requests

acquired : (try_acquire true unused).0 ≡ some memory_permit
unfolding try_acquire
acquired = refl

valid_config : validate_admission_config 2 1 ≡ ok tt
unfolding validate_admission_config
valid_config = refl
