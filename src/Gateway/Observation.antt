-- ===== src/Gateway/Observation.antt =====
-- gateway/observer.py: the registry of background observations. A task is known by a number that no
-- other task has. What the observer does is an argument: how its task ends. The end of a task and the
-- callback on it are two steps of the event loop, between which others may come.
mod Tests
pub mod Accounting
pub mod Tasks
pub mod Drained
use mnemostroma.Prelude.{
  ℕ, ◌+◌, String, Bool, true, false, not, Option, none, some, List, [], ◌∷◌, ◌++◌, ◌=ℕ◌, ◌==◌,
  string_eq, leb, if◌then◌else◌, length, select, contains, nat_eq,
}
use mnemostroma.Gateway.Contracts.{ChatMessage}
use mnemostroma.Gateway.Metrics.{GatewayMetrics, increment}

abbrev pub max_pending : ℕ
max_pending = 256

-- `raised` are the tasks in `tasks` that have failed and whose callback has not run yet.
pub record Registry : Type 0 where
  pub tasks : List ℕ
  pub raised : List ℕ
  pub next_task : ℕ
  pub shutdown_started : Bool
  pub metrics : Option GatewayMetrics

pub init : Option GatewayMetrics → Registry
init metrics = record {
  tasks = [];
  raised = [];
  next_task = 0;
  shutdown_started = false;
  metrics = metrics;
}

abbrev pub incr : String → Option GatewayMetrics → Option GatewayMetrics
incr name none = none
incr name (some m) = some (increment name m)

-- `schedule`: whether the observation was taken on. The new task joins `_tasks`.
pub schedule : Registry → Bool × Registry
schedule r =
    if r.shutdown_started
    then (false, r)
    else if leb max_pending (length r.tasks)
    then (false, r)
    else (
      true,
      record r {
        tasks = r.tasks ++ r.next_task ∷ [];
        next_task = r.next_task + 1;
        metrics = incr "gateway_observations_scheduled_total" r.metrics;
      },
    )

-- How a task that has not failed ends: a timeout is caught, so that task ends like one that returned.
pub data End : Type 0 where
  returned timed_out cancelled : End

-- The counter that `_task_done` increments for such an end.
pub end_counter : End → String
end_counter End.returned = "gateway_observations_completed_total"
end_counter End.timed_out = "gateway_observations_completed_total"
end_counter End.cancelled = "gateway_observations_cancelled_total"

pub discard : ℕ → List ℕ → List ℕ
discard task tasks = select (λ t. not (t =ℕ task)) tasks

-- `_run` catches an exception of the observer: it counts the failure and raises again.
pub run_failed : ℕ → Registry → Registry
run_failed task r = record r {
  raised = r.raised ++ task ∷ [];
  metrics = incr "gateway_observations_failed_total" r.metrics;
}

-- `_task_done` on a task with an exception, which it does not count.
pub failed_done : ℕ → Registry → Registry
unfolding discard
failed_done task r = record r { tasks = discard task r.tasks; raised = discard task r.raised }

-- `_task_done` on any other task.
pub task_done : ℕ → End → Registry → Registry
unfolding end_counter discard
task_done task end r = record r {
  tasks = discard task r.tasks;
  metrics = incr (end_counter end) r.metrics;
}

-- The rest of a task that is pending: its callback where it has failed already, and otherwise its end,
-- `none` for a failure, and its callback.
pub finish_from : Bool → ℕ → Option End → Registry → Registry
unfolding run_failed failed_done task_done
finish_from true task end r = failed_done task r
finish_from false task none r = failed_done task (run_failed task r)
finish_from false task (some e) r = task_done task e r

pub finish : ℕ → Option End → Registry → Registry
unfolding finish_from
finish task end r = finish_from (contains task r.raised) task end r

pub all_done : List ℕ → (ℕ → Option End) → Registry → Registry
unfolding finish
all_done [] ends r = r
all_done (t ∷ ts) ends r = all_done ts ends (finish t (ends t) r)

-- `drain`, when each task that was pending ends, within the timeout or by its cancellation.
pub drain : (ℕ → Option End) → Registry → Registry
unfolding all_done
drain ends r =
    let stopped : Registry = record r { shutdown_started = true } in
    record (all_done r.tasks ends stopped) { tasks = [] }

-- `last_user_content`: the first of the reversed messages whose role is `user`
last_user : List ChatMessage → Option String → Option String
last_user [] found = found
last_user (m ∷ ms) found = last_user ms (if m.role == "user" then some m.content else found)

unfoldable pub last_user_content : List ChatMessage → Option String
unfolding last_user
last_user_content messages = last_user messages none
