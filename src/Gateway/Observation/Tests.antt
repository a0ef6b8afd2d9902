-- ===== src/Gateway/Observation/Tests.antt =====
-- A concrete registry of observations.
use mnemostroma.Prelude.{refl, some}
use mnemostroma.Gateway.Metrics.{empty}
use mnemostroma.Gateway.Observation.{
  Registry, init, schedule, End, run_failed, failed_done, task_done,
}
use mnemostroma.Gateway.Observation.Accounting.{
  Reach, here, next, scheduled, failed, failed_called, done, IsTracked, Reach-IsTracked,
}

abbrev fresh : Registry
fresh = init (some empty)

-- Two observations are scheduled. The first fails, a third is scheduled before the callback on it, and
-- the second times out.
abbrev two_failed : Registry
two_failed = run_failed 0 (schedule (schedule fresh).1).1

abbrev after : Registry
after = task_done 1 End.timed_out (failed_done 0 (schedule two_failed).1)

observed : Reach fresh after
unfolding init schedule run_failed failed_done
observed =
    next
      (next
        (next (next (next (next here (scheduled refl)) (scheduled refl)) (failed 0 refl refl refl))
          (scheduled refl))
        (failed_called 0 refl refl))
      (done 1 End.timed_out refl refl refl)

Reach-IsTracked_example : IsTracked after
Reach-IsTracked_example = Reach-IsTracked observed
