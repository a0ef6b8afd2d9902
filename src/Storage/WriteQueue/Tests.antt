-- ===== src/Storage/WriteQueue/Tests.antt =====
-- A manager that starts, queues three items, works one off into its batch, flushes, and stops.
use mnemostroma.Prelude.{ℕ, ◌+◌, ◌≡◌, refl, Bool, false, [], ◌∷◌, arith, leb}
use mnemostroma.Storage.WriteQueue.{
  Manager, new_manager, start, queue_write, flush, worker_round, stop, worker_rounds,
}
use mnemostroma.Storage.WriteQueue.Kept.{
  count, placed, has_sentinel, starts, queues, works, Reach, here, next, Reach-placed, flush_lem,
}
use mnemostroma.Storage.WriteQueue.Stopped.{IsDone, stop_lem}

abbrev busy : Manager ℕ
busy = queue_write 9 (worker_round 10 false (queue_write 8 (queue_write 7 (start new_manager))))

abbrev busy_reached : Reach (9 ∷ 8 ∷ 7 ∷ []) busy
busy_reached =
    next (next (next (next (next here (starts _)) (queues _ 7)) (queues _ 8)) (works _ 10 false))
      (queues _ 9)

abbrev to_7 : ℕ → Bool
to_7 n = leb n 7

in_batch : busy.batch ≡ 7 ∷ []
unfolding new_manager start queue_write worker_round
in_batch = refl

-- The flush does not write the item in the batch.
not_flushed : (flush busy).written ≡ 8 ∷ 9 ∷ []
unfolding new_manager start queue_write worker_round flush
not_flushed = refl

Reach-placed_example : placed to_7 busy ≡ count to_7 (9 ∷ 8 ∷ 7 ∷ [])
Reach-placed_example = Reach-placed to_7 busy_reached

no_sentinel : has_sentinel busy.queue ≡ false
unfolding new_manager start queue_write worker_round
no_sentinel = refl

flush_lem_example :
    ((flush busy).queue ≡ [])
    × ((flush busy).batch ≡ busy.batch)
    × (count to_7 (flush busy).written + count to_7 busy.batch ≡ count to_7 (9 ∷ 8 ∷ 7 ∷ []))
flush_lem_example = flush_lem to_7 busy_reached no_sentinel

stop_lem_example :
    IsDone (worker_rounds 10 (false ∷ false ∷ false ∷ []) (stop busy))
    × (count to_7 (worker_rounds 10 (false ∷ false ∷ false ∷ []) (stop busy)).written
        ≡ count to_7 (9 ∷ 8 ∷ 7 ∷ []))
unfolding new_manager start queue_write worker_round
stop_lem_example =
    stop_lem to_7 10 (false ∷ false ∷ false ∷ []) busy_reached refl no_sentinel (omega arith)
