-- ===== src/IpcPool.antt =====
-- ipc_pool.py: the pool of connections to the daemon, as steps of calls that may overlap. A connection
-- is whether it is alive. What the socket does is an argument of a step: whether connecting
-- succeeds, and how a call ends. The body of `start` and the loop of `stop` are one step each.
pub mod Counted
mod Tests
use mnemostroma.Prelude.{
  ℕ, zero, suc, ◌+◌, ◌-◌, Bool, true, false, List, [], ◌∷◌, ◌++◌, ltb, if◌then◌else◌, length,
}

-- `idle` is the queue, whose maximal size is `size`; `busy` are the connections that calls hold; and
-- `waiting` those that calls are about to put back, but cannot, since the queue is full.
pub record Pool : Type 0 where
  pub size : ℕ
  pub idle : List Bool
  pub busy : List Bool
  pub waiting : List Bool
  pub started : Bool

pub new_pool : ℕ → Pool
new_pool size = record { size = size; idle = []; busy = []; waiting = []; started = false }

pub fresh : ℕ → List Bool
fresh zero = []
fresh (suc n) = true ∷ fresh n

-- `start`, which connects all or raises. The queue is cleared and then filled.
pub start : Bool → Pool → Pool
unfolding fresh
start connected p =
    if p.started
    then p
    else if connected
    then record p { idle = fresh p.size; started = true }
    else p

pub stop : Pool → Pool
stop p = record p { idle = []; started = false }

taken : List Bool → Pool → Pool
taken [] p = p
taken (conn ∷ rest) p = record p { idle = rest; busy = p.busy ++ conn ∷ [] }

-- A call that has found the pool started takes the first connection; it waits while there is none.
pub take_conn : Pool → Pool
unfolding taken
take_conn p = taken p.idle p

-- How a call ends: with a reply, which leaves the connection alive, or with an exception, after which
-- the connection is closed and made again, if that succeeds. A call that is cancelled goes straight to
-- the put: its connection is as it was, alive unless the cancellation fell into its renewal.
pub data Ending : Type 0 where
  replied : Ending
  raised : Bool → Ending
  cancelled : Bool → Ending

pub conn_after : Ending → Bool
conn_after replied = true
conn_after (raised reconnected) = reconnected
conn_after (cancelled alive) = alive

-- `await self._pool.put(conn)`
pub put_back : Bool → Pool → Pool
put_back conn p =
    if ltb (length p.idle) p.size
    then record p { idle = p.idle ++ conn ∷ [] }
    else record p { waiting = p.waiting ++ conn ∷ [] }

-- The busy connections without the one at an index.
pub without : ℕ → List Bool → List Bool
without n [] = []
without zero (b ∷ bs) = bs
without (suc n) (b ∷ bs) = b ∷ without n bs

-- The call that holds the connection at an index ends.
pub end_call : ℕ → Ending → Pool → Pool
unfolding without conn_after put_back
end_call index ending p =
    if ltb index (length p.busy)
    then put_back (conn_after ending) (record p { busy = without index p.busy })
    else p

admitted : List Bool → Pool → Pool
unfolding put_back
admitted [] p = p
admitted (conn ∷ rest) p =
    if ltb (length p.idle) p.size then put_back conn (record p { waiting = rest }) else p

-- A put that waits goes on when there is room.
pub admit : Pool → Pool
unfolding admitted
admit p = admitted p.waiting p
