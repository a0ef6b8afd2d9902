-- ===== src/Gateway/Observation/Accounting.antt =====
-- Every scheduled observation is accounted for, exactly once.
use mathlib.Core.Path.{subst}
use mnemostroma.Prelude.{
  ℕ, ◌+◌, ◌≤◌, ◌<◌, ◌≡◌, true, false, Option, none, some, List, [], ◌∷◌, ◌++◌, arith, nat_eq,
  string_eq, leb, length, length-append, All, All-append, contains, Bool-cases, inl, inr,
}
use mnemostroma.Prelude.Sort.{All-map}
use mnemostroma.Gateway.Metrics.{GatewayMetrics, counter, empty}
use mnemostroma.Gateway.Metrics.Counting.{counter-increment, counter-empty}
use mnemostroma.Gateway.Observation.{
  max_pending, Registry, init, incr, schedule, End, end_counter, discard, run_failed, failed_done,
  task_done,
}
use mnemostroma.Gateway.Observation.Tasks.{
  All-discard, Distinct, All-snoc, Distinct-snoc, Distinct-discard, length-discard, contains-snoc,
  All-absent, Distinct-add, discarded, still_pending, raised-tasks,
}

-- Every observation that was scheduled has completed, failed or been cancelled, or is pending and has not
-- failed: `ts` are the pending tasks, `us` those of them that have failed.
abbrev pub IsAccounted : Option GatewayMetrics → List ℕ → List ℕ → Type 0
IsAccounted none ts us = Unit
IsAccounted (some m) ts us =
    counter m "gateway_observations_scheduled_total" + length us
    ≡ counter m "gateway_observations_completed_total"
      + counter m "gateway_observations_failed_total"
      + counter m "gateway_observations_cancelled_total"
      + length ts

pub record IsTracked (r : Registry) : Type 0 where
  pub fresh : All (λ (t : ℕ). t < r.next_task) r.tasks
  pub distinct : Distinct r.tasks
  pub bounded : length r.tasks ≤ max_pending
  pub raised_once : Distinct r.raised
  pub raised_pending : All (λ (t : ℕ). contains t r.tasks ≡ true) r.raised
  pub accounted : IsAccounted r.metrics r.tasks r.raised

-- What can happen to a registry: a request schedules, the observer of a pending task fails, or the
-- callback on a task that has ended runs.
pub data Step : Registry → Registry → Type 0 where
  scheduled : {r s : Registry} → (schedule r).1 ≡ s → Step r s
  failed :
      {r s : Registry} (task : ℕ)
      → contains task r.tasks ≡ true
      → contains task r.raised ≡ false
      → run_failed task r ≡ s
      → Step r s
  failed_called :
      {r s : Registry} (task : ℕ)
      → contains task r.raised ≡ true
      → failed_done task r ≡ s
      → Step r s
  done :
      {r s : Registry} (task : ℕ) (end : End)
      → contains task r.tasks ≡ true
      → contains task r.raised ≡ false
      → task_done task end r ≡ s
      → Step r s

pub data Reach (r : Registry) : Registry → Type 0 where
  here : Reach r r
  next : {s t : Registry} → Reach r s → Step s t → Reach r t

IsAccounted-schedule :
    (m : Option GatewayMetrics) (n : ℕ) (ts us : List ℕ)
    → IsAccounted m ts us
    → IsAccounted (incr "gateway_observations_scheduled_total" m) (ts ++ n ∷ []) us
IsAccounted-schedule none n ts us h = tt
IsAccounted-schedule (some m) n ts us h = simp (counter-increment, length-append) (omega arith)

IsAccounted-failed :
    (m : Option GatewayMetrics) (n : ℕ) (ts us : List ℕ)
    → IsAccounted m ts us
    → IsAccounted (incr "gateway_observations_failed_total" m) ts (us ++ n ∷ [])
IsAccounted-failed none n ts us h = tt
IsAccounted-failed (some m) n ts us h = simp (counter-increment, length-append) (omega arith)

IsAccounted-called :
    (m : Option GatewayMetrics) (ts ts' us us' : List ℕ)
    → length ts' + 1 ≡ length ts
    → length us' + 1 ≡ length us
    → IsAccounted m ts us
    → IsAccounted m ts' us'
IsAccounted-called none ts ts' us us' e f h = tt
IsAccounted-called (some m) ts ts' us us' e f h = omega arith

IsAccounted-done :
    (m : Option GatewayMetrics) (end : End) (ts ts' us : List ℕ)
    → length ts' + 1 ≡ length ts
    → IsAccounted m ts us
    → IsAccounted (incr (end_counter end) m) ts' us
unfolding end_counter
IsAccounted-done none end ts ts' us e h = tt
IsAccounted-done (some m) End.returned ts ts' us e h = simp counter-increment (omega arith)
IsAccounted-done (some m) End.timed_out ts ts' us e h = simp counter-increment (omega arith)
IsAccounted-done (some m) End.cancelled ts ts' us e h = simp counter-increment (omega arith)

schedule-IsTracked : (r : Registry) → IsTracked r → IsTracked (schedule r).1
unfolding schedule
schedule-IsTracked r v = elim (Bool-cases r.shutdown_started) [
  | inl down ↦ simp down v
  | inr up ↦ elim (Bool-cases (leb max_pending (length r.tasks))) [
    | inl full ↦ simp (up, full) v
    | inr room ↦
        simp (up, room)
          (record {
            fresh = All-snoc r.next_task r.tasks v.fresh;
            distinct = Distinct-snoc r.next_task r.tasks v.fresh v.distinct;
            bounded = ground (arith, length-append r.tasks (r.next_task ∷ []));
            raised_once = v.raised_once;
            raised_pending =
                All-map r.raised (λ t h. contains-snoc t r.next_task r.tasks h) v.raised_pending;
            accounted = IsAccounted-schedule r.metrics r.next_task r.tasks r.raised v.accounted;
          })
  ]
]

pub run_failed-IsTracked :
    (r : Registry) (task : ℕ)
    → contains task r.tasks ≡ true
    → contains task r.raised ≡ false
    → IsTracked r
    → IsTracked (run_failed task r)
unfolding run_failed
run_failed-IsTracked r task c n v = record {
  fresh = v.fresh;
  distinct = v.distinct;
  bounded = v.bounded;
  raised_once = Distinct-add task r.raised (All-absent task r.raised n) v.raised_once;
  raised_pending =
      All-append (λ (t : ℕ). contains t r.tasks ≡ true) r.raised (task ∷ []) v.raised_pending
        (c, tt);
  accounted = IsAccounted-failed r.metrics task r.tasks r.raised v.accounted;
}

pub failed_done-IsTracked :
    (r : Registry) (task : ℕ)
    → contains task r.raised ≡ true
    → IsTracked r
    → IsTracked (failed_done task r)
unfolding failed_done
failed_done-IsTracked r task c v =
    let c' = raised-tasks task r.tasks r.raised v.raised_pending c in
    let shorter = length-discard task r.tasks v.distinct c' in
    record {
      fresh = All-discard (λ (t : ℕ). t < r.next_task) task r.tasks v.fresh;
      distinct = Distinct-discard task r.tasks v.distinct;
      bounded = omega (arith, shorter, v.bounded);
      raised_once = Distinct-discard task r.raised v.raised_once;
      raised_pending =
          still_pending task r.tasks (discard task r.raised) (discarded task r.raised)
            (All-discard (λ (t : ℕ). contains t r.tasks ≡ true) task r.raised v.raised_pending);
      accounted =
          IsAccounted-called r.metrics r.tasks (discard task r.tasks) r.raised
            (discard task r.raised) shorter (length-discard task r.raised v.raised_once c)
            v.accounted;
    }

pub task_done-IsTracked :
    (r : Registry) (task : ℕ) (end : End)
    → contains task r.tasks ≡ true
    → contains task r.raised ≡ false
    → IsTracked r
    → IsTracked (task_done task end r)
unfolding task_done
task_done-IsTracked r task end c n v =
    let shorter = length-discard task r.tasks v.distinct c in
    record {
      fresh = All-discard (λ (t : ℕ). t < r.next_task) task r.tasks v.fresh;
      distinct = Distinct-discard task r.tasks v.distinct;
      bounded = omega (arith, shorter, v.bounded);
      raised_once = v.raised_once;
      raised_pending =
          still_pending task r.tasks r.raised (All-absent task r.raised n) v.raised_pending;
      accounted =
          IsAccounted-done r.metrics end r.tasks (discard task r.tasks) r.raised shorter
            v.accounted;
    }

Step-IsTracked : {r s : Registry} → Step r s → IsTracked r → IsTracked s
Step-IsTracked {r} (scheduled e) v = subst IsTracked e (schedule-IsTracked r v)
Step-IsTracked {r} (failed task c n e) v = subst IsTracked e (run_failed-IsTracked r task c n v)
Step-IsTracked {r} (failed_called task c e) v = subst IsTracked e (failed_done-IsTracked r task c v)
Step-IsTracked {r} (done task end c n e) v =
    subst IsTracked e (task_done-IsTracked r task end c n v)

-- From a new registry with fresh metrics, in every interleaving of schedules, failures and callbacks: at
-- most 256 tasks are pending, no task is pending twice, a failed task whose callback has not run is
-- pending, and the observations scheduled are exactly those that completed (a timeout counts as
-- one), failed, were cancelled, or are pending and have not failed.
pub Reach-IsTracked : {r : Registry} → Reach (init (some empty)) r → IsTracked r
unfolding init
Reach-IsTracked here = record {
  fresh = tt;
  distinct = tt;
  bounded = omega arith;
  raised_once = tt;
  raised_pending = tt;
  accounted = omega (arith, counter-empty);
}
Reach-IsTracked (next r s) = Step-IsTracked s (Reach-IsTracked r)
