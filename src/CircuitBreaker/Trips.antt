-- ===== src/CircuitBreaker/Trips.antt =====
-- When the breaker trips, for calls made one after another from a closed breaker.
use mnemostroma.Prelude.{
  ℕ, ◌+◌, ◌≤◌, ◌<◌, ◌≡◌, Option, none, some, List, [], ◌∷◌, ◌++◌, arith, length, Option-cases, inl,
  inr,
}
use mnemostroma.CircuitBreaker.{State, Breaker, Outcome, Reply, call}

-- Calls that all raise, each given by its start and its duration.
pub fail_all : List (ℕ × ℕ) → Breaker → Option Breaker
fail_all [] b = some b
fail_all ((now, elapsed) ∷ rest) b = elim (call now elapsed Outcome.raises b) [
  | none ↦ none
  | some (r, b') ↦ fail_all rest b'
]

call-closed_raises :
    (now elapsed : ℕ) (b : Breaker)
    → b.state ≡ State.closed
    → b.failures + 1 < b.threshold
    → call now elapsed Outcome.raises b
      ≡ some (Reply.default, record b { failures = b.failures + 1 })
unfolding call
call-closed_raises now elapsed b hs h = ground arith

-- From a closed breaker, a run of failures that stays below the threshold leaves it closed with
-- all of them counted.
pub fail_all_below :
    (ts : List (ℕ × ℕ)) (b : Breaker)
    → b.state ≡ State.closed
    → b.failures + length ts < b.threshold
    → fail_all ts b ≡ some (record b { failures = b.failures + length ts })
unfolding fail_all
fail_all_below [] b hs h = ground arith
fail_all_below ((now, elapsed) ∷ rest) b hs h = ground (
  arith,
  call-closed_raises now elapsed b,
  fail_all_below rest (record b { failures = b.failures + 1 }),
)

call-closed_trips :
    (now elapsed : ℕ) (b : Breaker)
    → b.state ≡ State.closed
    → b.threshold ≤ b.failures + 1
    → call now elapsed Outcome.raises b
      ≡ some (
        Reply.default,
        record b {
          state = State.open_circuit;
          failures = b.failures + 1;
          opened_at = some (now + elapsed);
        },
      )
unfolding call
call-closed_trips now elapsed b hs h = ground arith

fail_all-append :
    (ts : List (ℕ × ℕ)) (now elapsed : ℕ) (b c : Breaker)
    → fail_all ts b ≡ some c
    → fail_all (ts ++ (now, elapsed) ∷ []) b
      ≡ elim (call now elapsed Outcome.raises c) [ none ↦ none | some (r, b') ↦ some b' ]
unfolding fail_all
fail_all-append [] now elapsed b c h = ground arith
fail_all-append ((n, e) ∷ ts) now elapsed b c h = elim (Option-cases (call n e Outcome.raises b)) [
  | inl f ↦ ground arith
  | inr ((r, b'), f) ↦ ground (arith, fail_all-append ts now elapsed b' c)
]

-- A closed breaker with no failure counted trips at exactly the threshold-th failure in a row:
-- after every shorter run of failures it is closed, and one more failure than the threshold less
-- one opens it from the time at which that call ended.
pub fail_all_trips :
    (ts : List (ℕ × ℕ)) (now elapsed : ℕ) (b : Breaker)
    → b.state ≡ State.closed
    → b.failures ≡ 0
    → length ts + 1 ≡ b.threshold
    → (fail_all ts b ≡ some (record b { failures = length ts }))
      × (fail_all (ts ++ (now, elapsed) ∷ []) b
          ≡ some (record b {
            state = State.open_circuit;
            failures = b.threshold;
            opened_at = some (now + elapsed);
          }))
fail_all_trips ts now elapsed b hs hf hn =
    let c : Breaker = record b { failures = length ts } in
    ground (
      arith,
      fail_all_below ts b hs,
      fail_all-append ts now elapsed b c,
      call-closed_trips now elapsed c,
    )
