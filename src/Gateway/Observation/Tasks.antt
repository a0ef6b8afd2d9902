-- ===== src/Gateway/Observation/Tasks.antt =====
-- Lists of tasks, in which no number stands twice.
use mathlib.Core.Path.{subst, sym}
use mnemostroma.Prelude.{
  ℕ, ◌+◌, ◌<◌, ◌≡◌, refl, ◌≢◌, true, false, true≢false, List, [], ◌∷◌, ◌++◌, arith, ◌=ℕ◌, nat_eq,
  string_eq, length, All, contains, Bool-cases, inl, inr,
}
use mnemostroma.Gateway.Observation.{discard}

-- No number stands twice.
abbrev pub Distinct : List ℕ → Type 0
Distinct [] = Unit
Distinct (t ∷ ts) = All (λ (u : ℕ). t ≢ u) ts × Distinct ts

pub All-snoc :
    (n : ℕ) (ts : List ℕ) → All (λ (t : ℕ). t < n) ts → All (λ (t : ℕ). t < n + 1) (ts ++ n ∷ [])
All-snoc n [] h = ground arith
All-snoc n (t ∷ ts) h = ground (arith, All-snoc n ts h.1)

All-ne-snoc :
    (t n : ℕ) (ts : List ℕ)
    → t ≢ n
    → All (λ (u : ℕ). t ≢ u) ts
    → All (λ (u : ℕ). t ≢ u) (ts ++ n ∷ [])
All-ne-snoc t n [] h k = (h, tt)
All-ne-snoc t n (u ∷ ts) h k = (k.0, All-ne-snoc t n ts h k.1)

pub Distinct-snoc :
    (n : ℕ) (ts : List ℕ) → All (λ (t : ℕ). t < n) ts → Distinct ts → Distinct (ts ++ n ∷ [])
Distinct-snoc n [] h d = (tt, tt)
Distinct-snoc n (t ∷ ts) h d = (All-ne-snoc t n ts (omega arith) d.0, Distinct-snoc n ts h.1 d.1)

pub All-discard {ℓ} : (P : ℕ → Type ℓ) (task : ℕ) (ts : List ℕ) → All P ts → All P (discard task ts)
unfolding discard
All-discard P task [] h = tt
All-discard P task (t ∷ ts) h = elim (Bool-cases (t =ℕ task)) [
  | inl same ↦ rw same (All-discard P task ts h.1)
  | inr other ↦ rw other (h.0, All-discard P task ts h.1)
]

pub Distinct-discard : (task : ℕ) (ts : List ℕ) → Distinct ts → Distinct (discard task ts)
unfolding discard
Distinct-discard task [] h = tt
Distinct-discard task (t ∷ ts) h = elim (Bool-cases (t =ℕ task)) [
  | inl same ↦ rw same (Distinct-discard task ts h.1)
  | inr other ↦ rw other (All-discard (λ (u : ℕ). t ≢ u) task ts h.0, Distinct-discard task ts h.1)
]

-- A number that is in no place is not removed.
pub discard_absent : (task : ℕ) (ts : List ℕ) → All (λ (u : ℕ). task ≢ u) ts → discard task ts ≡ ts
unfolding discard
discard_absent task [] h = refl
discard_absent task (t ∷ ts) h = ground (arith, discard_absent task ts h.1, h.0)

pub length-discard :
    (task : ℕ) (ts : List ℕ)
    → Distinct ts
    → contains task ts ≡ true
    → length (discard task ts) + 1 ≡ length ts
unfolding discard
length-discard task [] h c = cc
length-discard task (t ∷ ts) h c = elim (Bool-cases (t =ℕ task)) [
  | inl same ↦
      let e : task ≡ t = ground arith in
      let gone =
        discard_absent task ts (subst (λ (u : ℕ). All (λ (v : ℕ). u ≢ v) ts) (sym e) h.0) in
      ground (arith, gone)
  | inr other ↦ ground (arith, length-discard task ts h.1)
]

pub contains-snoc :
    (t n : ℕ) (ts : List ℕ) → contains t ts ≡ true → contains t (ts ++ n ∷ []) ≡ true
contains-snoc t n [] h = absurd (true≢false (sym h))
contains-snoc t n (u ∷ ts) h = ground (arith, contains-snoc t n ts)

pub All-absent : (task : ℕ) (ts : List ℕ) → contains task ts ≡ false → All (λ (u : ℕ). u ≢ task) ts
All-absent task [] h = tt
All-absent task (u ∷ ts) h = ground (arith, All-absent task ts)

pub Distinct-add :
    (n : ℕ) (ts : List ℕ) → All (λ (u : ℕ). u ≢ n) ts → Distinct ts → Distinct (ts ++ n ∷ [])
Distinct-add n [] h d = (tt, tt)
Distinct-add n (t ∷ ts) h d = (All-ne-snoc t n ts h.0 d.0, Distinct-add n ts h.1 d.1)

-- Another task stays.
contains-discard :
    (t task : ℕ) (ts : List ℕ)
    → t ≢ task
    → contains t ts ≡ true
    → contains t (discard task ts) ≡ true
unfolding discard
contains-discard t task [] ne h = h
contains-discard t task (u ∷ ts) ne h = elim (Bool-cases (u =ℕ task)) [
  | inl e ↦ rw e (ground (arith, contains-discard t task ts))
  | inr e ↦ rw e (ground (arith, contains-discard t task ts))
]

-- What is left of a list without a task is not that task.
pub discarded : (task : ℕ) (ts : List ℕ) → All (λ (u : ℕ). u ≢ task) (discard task ts)
unfolding discard
discarded task [] = tt
discarded task (t ∷ ts) = elim (Bool-cases (t =ℕ task)) [
  | inl e ↦ rw e (discarded task ts)
  | inr e ↦ rw e (ground (arith, e), discarded task ts)
]

-- The failed tasks stay pending when another task is discarded.
pub still_pending :
    (task : ℕ) (ts us : List ℕ)
    → All (λ (u : ℕ). u ≢ task) us
    → All (λ (t : ℕ). contains t ts ≡ true) us
    → All (λ (t : ℕ). contains t (discard task ts) ≡ true) us
still_pending task ts [] n h = tt
still_pending task ts (u ∷ us) n h =
    (contains-discard u task ts n.0 h.0, still_pending task ts us n.1 h.1)

-- A failed task is pending.
pub raised-tasks :
    (task : ℕ) (ts us : List ℕ)
    → All (λ (t : ℕ). contains t ts ≡ true) us
    → contains task us ≡ true
    → contains task ts ≡ true
raised-tasks task ts [] h c = absurd (true≢false (sym c))
raised-tasks task ts (u ∷ us) h c = elim (Bool-cases (u =ℕ task)) [
  | inl e ↦ subst (λ t. contains t ts ≡ true) (ground (arith, e)) h.0
  | inr e ↦ raised-tasks task ts us h.1 (ground (arith, e, c))
]
