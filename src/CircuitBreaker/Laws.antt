-- ===== src/CircuitBreaker/Laws.antt =====
-- The invariant of the breaker under every interleaving of calls, and what a call in each state does.
use mnemostroma.Prelude.{
  ltb, if◌then◌else◌, ℕ, ◌+◌, ◌-◌, ◌≤◌, ◌<◌, ◌≡◌, ◌≢◌, inl, inr, some, is_some, true, arith,
  Option-cases,
}
use mnemostroma.CircuitBreaker.{
  State, Breaker, init, read_state, Admit, begin_call, Outcome, Reply, finish_call, call,
}

-- The breaker is closed while fewer failures than the threshold are counted, and holds the time
-- of its opening otherwise.
pub record IsValid (b : Breaker) : Type 0 where
  pub positive : 0 < b.threshold
  pub closed_below : b.state ≡ State.closed → b.failures < b.threshold
  pub tripped : b.state ≢ State.closed → (b.threshold ≤ b.failures) × (is_some b.opened_at ≡ true)

-- One atomic piece of some call, at any time.
pub data Step : Breaker → Breaker → Type 0 where
  begin : {b b' : Breaker} (now : ℕ) (a : Admit) → begin_call now b ≡ some (a, b') → Step b b'
  finish : {b b' : Breaker} (now : ℕ) (o : Outcome) → (finish_call now o b).1 ≡ b' → Step b b'

pub data Reach (b : Breaker) : Breaker → Type 0 where
  here : Reach b b
  next : {c d : Breaker} → Reach b c → Step c d → Reach b d

read_state-IsValid :
    (now : ℕ) (b b' : Breaker) → IsValid b → read_state now b ≡ some b' → IsValid b'
unfolding read_state
read_state-IsValid now b b' v h = ground arith

begin_call-IsValid :
    (now : ℕ) (a : Admit) (b b' : Breaker)
    → IsValid b
    → begin_call now b ≡ some (a, b')
    → IsValid b'
unfolding begin_call
begin_call-IsValid now a b b' v h = ground arith

finish_call-IsValid :
    (now : ℕ) (o : Outcome) (b : Breaker) → IsValid b → IsValid (finish_call now o b).1
unfolding finish_call
finish_call-IsValid now Outcome.returns b v = ground arith
finish_call-IsValid now Outcome.raises b v = ground arith
finish_call-IsValid now Outcome.cancelled b v = v

Step-IsValid : {b b' : Breaker} → Step b b' → IsValid b → IsValid b'
Step-IsValid {b} {b'} (begin now a e) v = begin_call-IsValid now a b b' v e
Step-IsValid {b} {b'} (finish now o e) v = rw (← e) (finish_call-IsValid now o b v)

-- With a positive failure threshold, whatever calls begin, finish or are cancelled in whatever
-- order, the breaker is closed exactly while fewer failures than the threshold are counted, and
-- otherwise it holds the time of its opening.
pub Reach-IsValid :
    (threshold recovery ho_timeout : ℕ) {b : Breaker}
    → 0 < threshold
    → Reach (init threshold recovery ho_timeout) b
    → IsValid b
unfolding init
Reach-IsValid threshold recovery ho_timeout p here = ground arith
Reach-IsValid threshold recovery ho_timeout p (next r s) =
    Step-IsValid s (Reach-IsValid threshold recovery ho_timeout p r)

begin_call-IsSome :
    (now : ℕ) (b : Breaker) → IsValid b → (r : Admit × Breaker) × (begin_call now b ≡ some r)
unfolding begin_call
begin_call-IsSome now b v = elim (Option-cases b.opened_at) [
  | inl e ↦ elim (Option-cases (begin_call now b)) [ inl f ↦ absurd (ground arith) | inr r ↦ r ]
  | inr t ↦ elim (Option-cases (begin_call now b)) [ inl f ↦ absurd (ground arith) | inr r ↦ r ]
]

-- In every state that calls can reach, reading the clock never subtracts a missing opening time:
-- `call` always gets to its decision, to return the fallback or to await the coroutine.
pub begin_call_total :
    (threshold recovery ho_timeout now : ℕ) {b : Breaker}
    → 0 < threshold
    → Reach (init threshold recovery ho_timeout) b
    → (r : Admit × Breaker) × (begin_call now b ≡ some r)
begin_call_total threshold recovery ho_timeout now {b} p r =
    begin_call-IsSome now b (Reach-IsValid threshold recovery ho_timeout p r)

-- A trial that has failed at `now`.
abbrev pub reopened : ℕ → Breaker → Reply × Breaker
reopened now b = (
  Reply.default,
  record b { state = State.open_circuit; failures = b.failures + 1; opened_at = some now },
)

-- A trial that ends within its timeout at `now`.
abbrev pub in_time : ℕ → Outcome → Breaker → Reply × Breaker
in_time now Outcome.returns b = (Reply.result, record b { state = State.closed; failures = 0 })
in_time now Outcome.raises b = reopened now b
in_time now Outcome.cancelled b = (Reply.cancel, record b { state = State.half_open })

-- Once it has passed, the call is a trial: a return within the half-open timeout closes the
-- breaker and clears the count; a raise, or any end after the timeout, opens it again from the
-- time of that end; and a cancellation before the timeout leaves it half open.
pub call_trial :
    (now elapsed t : ℕ) (o : Outcome) (b : Breaker)
    → IsValid b
    → b.state ≡ State.open_circuit
    → b.opened_at ≡ some t
    → b.recovery ≤ now - t
    → call now elapsed o b
      ≡ some (
          if ltb b.ho_timeout elapsed
          then reopened (now + elapsed) b
          else in_time (now + elapsed) o b)
unfolding call begin_call
call_trial now elapsed t Outcome.returns b v hs ht hr = ground arith
call_trial now elapsed t Outcome.raises b v hs ht hr = ground arith
call_trial now elapsed t Outcome.cancelled b v hs ht hr = ground arith
