-- ===== src/IpcPool/Tests.antt =====
-- A pool of one connection, with a call; and the same with a stop and a start during the call.
use mnemostroma.Prelude.{◌≡◌, refl, true, false, [], ◌∷◌}
use mnemostroma.IpcPool.{Pool, new_pool, start, stop, take_conn, end_call, replied, raised}
use mnemostroma.IpcPool.Counted.{Reach, here, next, starts, takes, ends, IsWhole, Reach-IsWhole}

abbrev in_call : Pool
in_call = take_conn (start true (new_pool 1))

after_failure : (end_call 0 (raised false) in_call).idle ≡ false ∷ []
unfolding take_conn start new_pool end_call
after_failure = refl

started : (start true (new_pool 1)).started ≡ true
unfolding start new_pool
started = refl

called : Reach 1 false (end_call 0 replied in_call)
called = next (next (next here (starts _ true)) (takes _ started)) (ends _ 0 replied)

Reach-IsWhole_example : IsWhole 1 (end_call 0 replied in_call)
Reach-IsWhole_example = Reach-IsWhole called refl

-- The reply has come, but the call waits for room in the queue.
waits_after_restart : (end_call 0 replied (start true (stop in_call))).waiting ≡ true ∷ []
unfolding take_conn start stop new_pool end_call
waits_after_restart = refl
