-- ===== src/CircuitBreaker/Tests.antt =====
-- Concrete runs of the circuit breaker, with its default threshold of three.
use mnemostroma.Prelude.{◌≡◌, refl, none, some, [], ◌∷◌, arith}
use mnemostroma.CircuitBreaker.{State, Breaker, init, Admit, begin_call, Outcome, finish_call}
use mnemostroma.CircuitBreaker.Laws.{IsValid, Reach, here, next, begin, finish, Reach-IsValid}
use mnemostroma.CircuitBreaker.Trips.{fail_all, fail_all_trips}

abbrev fresh : Breaker
fresh = record {
  threshold = 3;
  recovery = 30;
  ho_timeout = 5;
  state = State.closed;
  failures = 0;
  opened_at = none;
}

abbrev tripped : Breaker
tripped = record fresh { state = State.open_circuit; failures = 3; opened_at = some 12 }

-- Two calls are awaited at once, and the first one fails while the second is still running.
interleaved : Reach (init 3 30 5) (record fresh { failures = 1 })
unfolding init begin_call finish_call
interleaved =
    next
      (next (next here (begin {b = fresh} 1 (Admit.attempt none) refl))
        (begin {b = fresh} 2 (Admit.attempt none) refl))
      (finish {b = fresh} 4 Outcome.raises refl)

Reach-IsValid_example : IsValid (record fresh { failures = 1 })
Reach-IsValid_example = Reach-IsValid 3 30 5 (omega arith) interleaved

tripped-IsValid : IsValid tripped
tripped-IsValid = ground arith

fail_all_trips_example :
    (fail_all ((0, 1) ∷ (5, 1) ∷ []) fresh ≡ some (record fresh { failures = 2 }))
    × (fail_all ((0, 1) ∷ (5, 1) ∷ (9, 3) ∷ []) fresh ≡ some tripped)
fail_all_trips_example = fail_all_trips ((0, 1) ∷ (5, 1) ∷ []) 9 3 fresh refl refl (omega arith)
