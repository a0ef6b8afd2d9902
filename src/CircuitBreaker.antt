-- ===== src/CircuitBreaker.antt =====
-- src/mnemostroma/circuit_breaker.py: the breaker around IPC calls. Times are the ticks of the
-- monotonic clock. A call is split where it awaits: what runs before (`begin_call`) and what runs
-- when the awaited coroutine has ended (`finish_call`); other calls may run in between.
pub mod Laws
pub mod Refusal
pub mod Trips
mod Tests
use mnemostroma.Prelude.{
  ℕ, ◌+◌, ◌-◌, Bool, true, false, Option, none, some, leb, ltb, if◌then◌else◌,
}

pub data State : Type 0 where
  closed open_circuit half_open : State

pub record Breaker : Type 0 where
  pub threshold : ℕ
  pub recovery : ℕ
  pub ho_timeout : ℕ
  pub state : State
  pub failures : ℕ
  pub opened_at : Option ℕ

pub init : ℕ → ℕ → ℕ → Breaker
init failure_threshold recovery_timeout half_open_timeout = record {
  threshold = failure_threshold;
  recovery = recovery_timeout;
  ho_timeout = half_open_timeout;
  state = State.closed;
  failures = 0;
  opened_at = none;
}

-- The property `state` when the stored state is open; `none` is the TypeError of `now - None`.
read_open : ℕ → Option ℕ → Breaker → Option Breaker
read_open now none b = none
read_open now (some t) b =
    some (if leb b.recovery (now - t) then record b { state = State.half_open } else b)

read_by : ℕ → State → Breaker → Option Breaker
unfolding read_open
read_by now State.open_circuit b = read_open now b.opened_at b
read_by now State.closed b = some b
read_by now State.half_open b = some b

-- The property `state`: reading it may move the breaker to half open.
pub read_state : ℕ → Breaker → Option Breaker
unfolding read_by
read_state now b = read_by now b.state b

-- What `call` does before it awaits: it returns the fallback, or it awaits `fn`, under a timeout
-- when the breaker is half open.
pub data Admit : Type 0 where
  fallback : Admit
  attempt : Option ℕ → Admit

admit : State → Breaker → Admit
admit State.open_circuit b = Admit.fallback
admit State.half_open b = Admit.attempt (some b.ho_timeout)
admit State.closed b = Admit.attempt none

pub begin_call : ℕ → Breaker → Option (Admit × Breaker)
unfolding admit read_state
begin_call now b = elim (read_state now b) [ none ↦ none | some b' ↦ some (admit b'.state b', b') ]

-- How the coroutine behaves: the ticks it takes, and whether it then returns, raises an
-- `Exception`, or is cancelled (`CancelledError` is no `Exception`, so `call` lets it pass).
pub data Outcome : Type 0 where
  returns raises cancelled : Outcome

-- `asyncio.wait_for`: an outcome that comes after the timeout is a TimeoutError instead.
pub observed : Option ℕ → ℕ → Outcome → Outcome
observed none elapsed o = o
observed (some timeout) elapsed o = if ltb timeout elapsed then Outcome.raises else o

pub on_success : Breaker → Breaker
on_success b = record b { state = State.closed; failures = 0 }

pub on_failure : ℕ → Breaker → Breaker
on_failure now b =
    let failures = b.failures + 1 in
    if leb b.threshold failures
    then record b { failures = failures; state = State.open_circuit; opened_at = some now }
    else record b { failures = failures }

-- What `call` returns or raises: the result of `fn`, the fallback, or the cancellation.
pub data Reply : Type 0 where
  result default cancel : Reply

pub finish_call : ℕ → Outcome → Breaker → Reply × Breaker
unfolding on_success on_failure
finish_call now Outcome.returns b = (Reply.result, on_success b)
finish_call now Outcome.raises b = (Reply.default, on_failure now b)
finish_call now Outcome.cancelled b = (Reply.cancel, b)

run_attempt : ℕ → ℕ → Outcome → Admit × Breaker → Reply × Breaker
unfolding finish_call observed
run_attempt now elapsed o (Admit.fallback, b) = (Reply.default, b)
run_attempt now elapsed o (Admit.attempt timeout, b) =
    finish_call (now + elapsed) (observed timeout elapsed o) b

-- A whole call that starts at `now`, with nothing run in between.
pub call : ℕ → ℕ → Outcome → Breaker → Option (Reply × Breaker)
unfolding begin_call run_attempt
call now elapsed o b = elim (begin_call now b) [
  | none ↦ none
  | some r ↦ some (run_attempt now elapsed o r)
]
