-- ===== src/Storage/WriteQueue.antt =====
-- storage/sqlite.py: the queue of DatabaseManager, its worker, and the flush that goes round the
-- worker. The queue has no bound, so it never refuses. `written` is what _flush_batch was given, in
-- order; the database does not fail. Whether the flush interval has passed is an argument.
pub mod Kept
pub mod Stopped
mod Tests
use mnemostroma.Prelude.{
  ℕ, ◌+◌, ◌≤◌, Bool, true, false, ◌||◌, Option, none, some, List, [], ◌∷◌, ◌++◌, leb, if◌then◌else◌,
  length,
}

-- In the queue, `none` is the sentinel that ends the worker, and `batch` is the worker's own list.
-- `worker_task` is that there is a task of the worker, and `working` that it has not ended.
pub record Manager {ℓ} (A : Type ℓ) : Type ℓ where
  pub queue : List (Option A)
  pub batch : List A
  pub written : List A
  pub worker_task : Bool
  pub working : Bool

module _ {ℓ} {A : Type ℓ} where
  pub new_manager : Manager A
  new_manager = record {
    queue = [];
    batch = [];
    written = [];
    worker_task = false;
    working = false;
  }

  pub start : Manager A → Manager A
  start m = if m.worker_task then m else record m { worker_task = true; working = true }

  pub queue_write : A → Manager A → Manager A
  queue_write item m = record m { queue = m.queue ++ some item ∷ [] }

  pub flush_batch : List A → Manager A → Manager A
  flush_batch items m = record m { written = m.written ++ items }

  -- The loop of `flush`: the items up to the sentinel, and what is left in the queue, with the
  -- sentinel put back behind it.
  pub drain : List (Option A) → List A × List (Option A)
  drain [] = ([], [])
  drain (none ∷ q) = ([], q ++ none ∷ [])
  drain (some item ∷ q) = let (items, rest) = drain q in (item ∷ items, rest)

  pub flush : Manager A → Manager A
  unfolding drain flush_batch
  flush m = let (items, rest) = drain m.queue in flush_batch items (record m { queue = rest })

  -- The end of a round of the worker.
  pub flush_if : Bool → Manager A → Manager A
  unfolding flush_batch
  flush_if should_flush m =
      if should_flush then record (flush_batch m.batch m) { batch = [] } else m

  -- A round of the worker on what it got from the queue, or on a timeout.
  pub round : ℕ → Bool → List (Option A) → Manager A → Manager A
  unfolding flush_if
  round batch_flush_size due [] m = flush_if (leb batch_flush_size (length m.batch) || due) m
  round batch_flush_size due (none ∷ q) m = record (flush_if true m) { queue = q; working = false }
  round batch_flush_size due (some item ∷ q) m =
      let m' = record m { queue = q; batch = m.batch ++ item ∷ [] } in
      flush_if (leb batch_flush_size (length m'.batch) || due) m'

  pub worker_round : ℕ → Bool → Manager A → Manager A
  unfolding round
  worker_round batch_flush_size due m =
      if m.working then round batch_flush_size due m.queue m else m

  -- `stop` up to where it waits for the worker.
  pub stop : Manager A → Manager A
  stop m = if m.worker_task then record m { queue = m.queue ++ none ∷ [] } else m

  -- `stop` from where the worker has ended.
  pub stopped : Manager A → Manager A
  stopped m = if m.working then m else record m { worker_task = false }

  -- The rounds of the worker, one for each flag.
  pub worker_rounds : ℕ → List Bool → Manager A → Manager A
  unfolding worker_round
  worker_rounds batch_flush_size [] m = m
  worker_rounds batch_flush_size (due ∷ dues) m =
      worker_rounds batch_flush_size dues (worker_round batch_flush_size due m)
