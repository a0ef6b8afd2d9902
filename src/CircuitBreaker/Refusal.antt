-- ===== src/CircuitBreaker/Refusal.antt =====
-- How long an open breaker refuses, for calls made one after another.
use mnemostroma.Prelude.{ℕ, ◌+◌, ◌≤◌, ◌<◌, ◌≡◌, refl, Option, none, some, List, [], ◌∷◌, arith, All}
use mnemostroma.CircuitBreaker.{State, Breaker, Admit, begin_call, Outcome, Reply, call}

-- Calls, each given by its start, its duration and how its coroutine behaves.
pub call_all : List (ℕ × ℕ × Outcome) → Breaker → Option (List Reply × Breaker)
call_all [] b = some ([], b)
call_all ((now, elapsed, o) ∷ rest) b = elim (call now elapsed o b) [
  | none ↦ none
  | some (r, b') ↦ elim (call_all rest b') [ none ↦ none | some (rs, b'') ↦ some (r ∷ rs, b'') ]
]

-- The call starts after the opening at `t`, and before the recovery time has passed.
abbrev pub IsEarly : ℕ → Breaker → ℕ × ℕ × Outcome → Type 0
IsEarly t b c = (t ≤ c.0) × (c.0 < t + b.recovery)

abbrev pub refusals : List (ℕ × ℕ × Outcome) → List Reply
refusals [] = []
refusals (c ∷ cs) = Reply.default ∷ refusals cs

call-open :
    (now elapsed t : ℕ) (o : Outcome) (b : Breaker)
    → b.state ≡ State.open_circuit
    → b.opened_at ≡ some t
    → IsEarly t b (now, elapsed, o)
    → call now elapsed o b ≡ some (Reply.default, b)
unfolding call begin_call
call-open now elapsed t o b hs ht (l, h) = ground arith

call_all-open :
    (t : ℕ) (b : Breaker) (cs : List (ℕ × ℕ × Outcome))
    → b.state ≡ State.open_circuit
    → b.opened_at ≡ some t
    → All (IsEarly t b) cs
    → call_all cs b ≡ some (refusals cs, b)
unfolding call_all
call_all-open t b [] hs ht h = refl
call_all-open t b ((now, elapsed, o) ∷ cs) hs ht (early, h) =
    ground (arith, call-open now elapsed t o b hs ht early, call_all-open t b cs hs ht h)

-- A breaker that opened at `t` refuses every call that starts before the recovery time has passed,
-- however many there are and whatever their coroutines would have done: each returns the fallback
-- and the breaker stays as it is. The first call from then on is awaited again, as a trial under
-- the half-open timeout.
pub call_all_refused :
    (t now : ℕ) (b : Breaker) (cs : List (ℕ × ℕ × Outcome))
    → b.state ≡ State.open_circuit
    → b.opened_at ≡ some t
    → All (IsEarly t b) cs
    → t + b.recovery ≤ now
    → (call_all cs b ≡ some (refusals cs, b))
      × (begin_call now b
          ≡ some (Admit.attempt (some b.ho_timeout), record b { state = State.half_open }))
unfolding begin_call
call_all_refused t now b cs hs ht h l = (call_all-open t b cs hs ht h, ground arith)
