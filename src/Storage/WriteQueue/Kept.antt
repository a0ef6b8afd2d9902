-- ===== src/Storage/WriteQueue/Kept.antt =====
-- Nothing that is queued is lost or written twice, and what a flush and a stop have written.
use mnemostroma.Prelude.{
  ℕ, ◌+◌, ◌≡◌, refl, ◌∙◌, sym, ap, Bool, true, false, ◌||◌, Option, none, some, List, [], ◌∷◌, ◌++◌,
  arith, leb, if◌then◌else◌, length,
}
use mnemostroma.Storage.WriteQueue.{
  Manager, new_manager, start, queue_write, flush_batch, drain, flush, flush_if, round,
  worker_round, stop, stopped,
}

module _ {ℓ} {A : Type ℓ} where
  -- How many of the items satisfy a test.
  abbrev pub count : (A → Bool) → List A → ℕ
  count p [] = 0
  count p (x ∷ xs) = (if p x then 1 else 0) + count p xs

  abbrev pub count_queued : (A → Bool) → List (Option A) → ℕ
  count_queued p [] = 0
  count_queued p (none ∷ q) = count_queued p q
  count_queued p (some x ∷ q) = (if p x then 1 else 0) + count_queued p q

  count-append : (p : A → Bool) (xs ys : List A) → count p (xs ++ ys) ≡ count p xs + count p ys
  count-append p [] ys = omega arith
  count-append p (x ∷ xs) ys = omega (arith, count-append p xs ys)

  count_queued-append :
      (p : A → Bool) (q r : List (Option A))
      → count_queued p (q ++ r) ≡ count_queued p q + count_queued p r
  count_queued-append p [] r = omega arith
  count_queued-append p (none ∷ q) r = count_queued-append p q r
  count_queued-append p (some x ∷ q) r = omega (arith, count_queued-append p q r)

  count-drain :
      (p : A → Bool) (q : List (Option A))
      → count p (drain q).0 + count_queued p (drain q).1 ≡ count_queued p q
  unfolding drain
  count-drain p [] = refl
  count-drain p (none ∷ q) = omega (arith, count_queued-append p q (none ∷ []))
  count-drain p (some x ∷ q) = omega (arith, count-drain p q)

  -- A history of the manager, with the items that were queued.
  pub data Step : Manager A → List A → Manager A → Type ℓ where
    starts : (m : Manager A) → Step m [] (start m)
    queues : (m : Manager A) (item : A) → Step m (item ∷ []) (queue_write item m)
    flushes : (m : Manager A) → Step m [] (flush m)
    works :
        (m : Manager A) (batch_flush_size : ℕ) (due : Bool)
        → Step m [] (worker_round batch_flush_size due m)
    stops : (m : Manager A) → Step m [] (stop m)
    ends : (m : Manager A) → Step m [] (stopped m)

  pub data Reach : List A → Manager A → Type ℓ where
    here : Reach [] new_manager
    next :
        {queued items : List A} {m n : Manager A}
        → Reach queued m
        → Step m items n
        → Reach (items ++ queued) n

  -- Where the items that satisfy a test are.
  abbrev pub placed : (A → Bool) → Manager A → ℕ
  placed p m = count p m.written + (count p m.batch + count_queued p m.queue)

  placed-flush_if : (p : A → Bool) (b : Bool) (m : Manager A) → placed p (flush_if b m) ≡ placed p m
  unfolding flush_if flush_batch
  placed-flush_if p true m = omega (arith, count-append p m.written m.batch)
  placed-flush_if p false m = refl

  round-placed :
      (p : A → Bool) (size : ℕ) (due : Bool) (q : List (Option A)) (m : Manager A)
      → m.queue ≡ q
      → placed p (round size due q m) ≡ placed p m
  unfolding round flush_if flush_batch
  round-placed p size due [] m e = placed-flush_if p (leb size (length m.batch) || due) m
  round-placed p size due (none ∷ q) m e =
      omega (arith, count-append p m.written m.batch, ap (count_queued p) e)
  round-placed p size due (some x ∷ q) m e =
      let m' : Manager A = record m { queue = q; batch = m.batch ++ x ∷ [] } in
      omega (
        arith,
        placed-flush_if p (leb size (length m'.batch) || due) m',
        count-append p m.batch (x ∷ []),
        ap (count_queued p) e,
      )

  Step-placed :
      (p : A → Bool) {m n : Manager A} {items : List A}
      → Step m items n
      → placed p n ≡ count p items + placed p m
  unfolding start queue_write flush flush_batch worker_round stop stopped
  Step-placed p (starts m) =
      elim m.worker_task
        as (λ b.
          placed p (if b then m else record m { worker_task = true; working = true })
          ≡ 0 + placed p m) [ true ↦ omega arith | false ↦ omega arith ]
  Step-placed p (queues m item) = omega (arith, count_queued-append p m.queue (some item ∷ []))
  Step-placed p (flushes m) =
      omega (arith, count-append p m.written (drain m.queue).0, count-drain p m.queue)
  Step-placed p (works m size due) =
      elim m.working
        as (λ b. placed p (if b then round size due m.queue m else m) ≡ 0 + placed p m) [
          | true ↦ omega (arith, round-placed p size due m.queue m refl)
          | false ↦ omega arith
        ]
  Step-placed p (stops m) =
      elim m.worker_task
        as (λ b.
          placed p (if b then record m { queue = m.queue ++ none ∷ [] } else m) ≡ 0 + placed p m) [
            | true ↦ omega (arith, count_queued-append p m.queue (none ∷ []))
            | false ↦ omega arith
          ]
  Step-placed p (ends m) =
      elim m.working
        as (λ b. placed p (if b then m else record m { worker_task = false }) ≡ 0 + placed p m) [
          | true ↦ omega arith
          | false ↦ omega arith
        ]

  pub flush_if-working : (b : Bool) (m : Manager A) → (flush_if b m).working ≡ m.working
  unfolding flush_if flush_batch
  flush_if-working true m = refl
  flush_if-working false m = refl

  flush_if-worker_task : (b : Bool) (m : Manager A) → (flush_if b m).worker_task ≡ m.worker_task
  unfolding flush_if flush_batch
  flush_if-worker_task true m = refl
  flush_if-worker_task false m = refl

  -- The worker works only on a task.
  abbrev IsManned : Manager A → Type 0
  IsManned m = m.working ≡ true → m.worker_task ≡ true

  round-IsManned :
      (size : ℕ) (due : Bool) (q : List (Option A)) (m : Manager A)
      → IsManned m
      → IsManned (round size due q m)
  unfolding round
  round-IsManned size due [] m h e =
      let b : Bool = leb size (length m.batch) || due in
      flush_if-worker_task b m ∙ h (sym (flush_if-working b m) ∙ e)
  round-IsManned size due (none ∷ q) m h e = cc
  round-IsManned size due (some x ∷ q) m h e =
      let m' : Manager A = record m { queue = q; batch = m.batch ++ x ∷ [] } in
      let b : Bool = leb size (length m'.batch) || due in
      flush_if-worker_task b m' ∙ h (sym (flush_if-working b m') ∙ e)

  Step-IsManned : {m n : Manager A} {items : List A} → Step m items n → IsManned m → IsManned n
  unfolding start queue_write flush flush_batch worker_round stop stopped
  Step-IsManned (starts m) h =
      elim m.worker_task
        as (λ b. IsManned (if b then m else record m { worker_task = true; working = true })) [
          | true ↦ h
          | false ↦ λ e. refl
        ]
  Step-IsManned (queues m item) h = h
  Step-IsManned (flushes m) h = h
  Step-IsManned (works m size due) h =
      elim m.working as (λ b. IsManned (if b then round size due m.queue m else m)) [
        | true ↦ round-IsManned size due m.queue m h
        | false ↦ h
      ]
  Step-IsManned (stops m) h =
      elim m.worker_task
        as (λ b. IsManned (if b then record m { queue = m.queue ++ none ∷ [] } else m)) [
          | true ↦ h
          | false ↦ h
        ]
  Step-IsManned (ends m) h =
      elim m.working
          as (λ b. m.working ≡ b → IsManned (if b then m else record m { worker_task = false })) [
            | true ↦ λ w. h
            | false ↦ λ w e. cc
          ]
        refl

  pub Reach-IsManned : {queued : List A} {m : Manager A} → Reach queued m → IsManned m
  unfolding new_manager
  Reach-IsManned here = λ e. cc
  Reach-IsManned (next r st) = Step-IsManned st (Reach-IsManned r)

  -- After any history of starts, queued items, flushes, worker rounds, stops and ends of stops, every item that was
  -- queued is in exactly one place, as often as it was queued: written, in the worker's own
  -- batch, or still in the queue.
  pub Reach-placed :
      (p : A → Bool) {queued : List A} {m : Manager A}
      → Reach queued m
      → placed p m ≡ count p queued
  unfolding new_manager
  Reach-placed p here = refl
  Reach-placed p (next {queued} {items} r st) =
      omega (arith, Step-placed p st, Reach-placed p r, count-append p items queued)

  -- No sentinel is in the queue: the manager was not told to stop.
  abbrev pub has_sentinel : List (Option A) → Bool
  has_sentinel [] = false
  has_sentinel (none ∷ q) = true
  has_sentinel (some x ∷ q) = has_sentinel q

  drain-empty : (q : List (Option A)) → has_sentinel q ≡ false → (drain q).1 ≡ []
  unfolding drain
  drain-empty [] h = refl
  drain-empty (none ∷ q) h = cc
  drain-empty (some x ∷ q) h = drain-empty q h

  -- A flush, while no stop is under way, empties the queue; but it leaves the worker's own batch
  -- alone. So of the items that were queued, those in that batch, and no others, are still not written.
  pub flush_lem :
      (p : A → Bool) {queued : List A} {m : Manager A}
      → Reach queued m
      → has_sentinel m.queue ≡ false
      → ((flush m).queue ≡ [])
        × ((flush m).batch ≡ m.batch)
        × (count p (flush m).written + count p m.batch ≡ count p queued)
  unfolding flush flush_batch
  flush_lem p {queued} {m} r h =
      let e : (drain m.queue).1 ≡ [] = drain-empty m.queue h in
      (
        e,
        refl,
        omega (
          arith,
          Reach-placed p r,
          count-append p m.written (drain m.queue).0,
          count-drain p m.queue,
          ap (count_queued p) e,
        ),
      )
