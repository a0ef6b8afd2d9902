-- ===== src/Storage/WriteQueue/Stopped.antt =====
-- A stop ends the worker and writes everything that was queued.
use mathlib.Core.Path.{subst}
use mnemostroma.Prelude.{
  ℕ, ◌<◌, ◌≡◌, refl, ◌∙◌, sym, ap, Bool, true, false, ◌||◌, Option, none, some, List, [], ◌∷◌, ◌++◌,
  arith, leb, if◌then◌else◌, length,
}
use mnemostroma.Storage.WriteQueue.{
  Manager, flush_batch, flush_if, round, worker_round, stop, worker_rounds,
}
use mnemostroma.Storage.WriteQueue.Kept.{
  count, count_queued, Reach, works, stops, next, Reach-placed, has_sentinel, Reach-IsManned,
  flush_if-working,
}

module _ {ℓ} {A : Type ℓ} where
  worker_rounds-idle :
      (size : ℕ) (dues : List Bool) (m : Manager A)
      → m.working ≡ false
      → worker_rounds size dues m ≡ m
  unfolding worker_rounds worker_round
  worker_rounds-idle size [] m h = refl
  worker_rounds-idle size (due ∷ dues) m h =
      let same : worker_round size due m ≡ m =
        ap (λ b. if b then round size due m.queue m else m) h in
      ap (worker_rounds size dues) same ∙ worker_rounds-idle size dues m h

  -- The worker has ended with nothing left.
  pub record IsDone (m : Manager A) : Type ℓ where
    pub ended : m.working ≡ false
    pub no_batch : m.batch ≡ []
    pub no_queue : m.queue ≡ []

  flush_if-queue : (b : Bool) (m : Manager A) → (flush_if b m).queue ≡ m.queue
  unfolding flush_if flush_batch
  flush_if-queue true m = refl
  flush_if-queue false m = refl

  worker_rounds-IsDone :
      (size : ℕ) (dues : List Bool) (q : List (Option A)) (m : Manager A)
      → m.working ≡ true
      → m.queue ≡ q ++ none ∷ []
      → has_sentinel q ≡ false
      → length q < length dues
      → IsDone (worker_rounds size dues m)
  unfolding worker_rounds worker_round round flush_if flush_batch
  worker_rounds-IsDone size [] q m w e s l = absurd (omega arith)
  worker_rounds-IsDone size (due ∷ dues) [] m w e s l =
      let last : Manager A = record (record (flush_batch m.batch m) { batch = [] }) {
        queue = [];
        working = false;
      } in
      let step : worker_round size due m ≡ last =
        ap (λ b. if b then round size due m.queue m else m) w ∙ ap (λ q. round size due q m) e in
      subst IsDone
        (sym (ap (worker_rounds size dues) step ∙ worker_rounds-idle size dues last refl))
        (record { ended = refl; no_batch = refl; no_queue = refl })
  worker_rounds-IsDone size (due ∷ dues) (none ∷ q) m w e s l = cc
  worker_rounds-IsDone size (due ∷ dues) (some x ∷ q) m w e s l =
      let m' : Manager A = record m { queue = q ++ none ∷ []; batch = m.batch ++ x ∷ [] } in
      let b : Bool = leb size (length m'.batch) || due in
      let step : worker_round size due m ≡ flush_if b m' =
        ap (λ b. if b then round size due m.queue m else m) w ∙ ap (λ q. round size due q m) e in
      subst (λ n. IsDone (worker_rounds size dues n)) (sym step)
        (worker_rounds-IsDone size dues q (flush_if b m') (flush_if-working b m' ∙ w)
          (flush_if-queue b m') s (omega (arith, l)))

  Reach-worker_rounds :
      (size : ℕ) (dues : List Bool) {queued : List A} {m : Manager A}
      → Reach queued m
      → Reach queued (worker_rounds size dues m)
  unfolding worker_rounds
  Reach-worker_rounds size [] r = r
  Reach-worker_rounds size (due ∷ dues) {queued} {m} r =
      Reach-worker_rounds size dues (next r (works m size due))

  stop-IsDone :
      (size : ℕ) (dues : List Bool) (m : Manager A)
      → m.working ≡ true
      → m.worker_task ≡ true
      → has_sentinel m.queue ≡ false
      → length m.queue < length dues
      → IsDone (worker_rounds size dues (stop m))
  unfolding stop
  stop-IsDone size dues m w t s l =
      let told : Manager A = record m { queue = m.queue ++ none ∷ [] } in
      subst (λ n. IsDone (worker_rounds size dues n)) (sym (ap (λ b. if b then told else m) t))
        (worker_rounds-IsDone size dues m.queue told w refl s l)

  -- A stop of a working manager that was not told to stop before: within one round of the worker for each
  -- queued entry and one for the sentinel, whatever its flushes on the way, the worker has ended, its
  -- batch and the queue are empty, and every item that was ever queued is written, as often as it was.
  pub stop_lem :
      (p : A → Bool) (size : ℕ) (dues : List Bool) {queued : List A} {m : Manager A}
      → Reach queued m
      → m.working ≡ true
      → has_sentinel m.queue ≡ false
      → length m.queue < length dues
      → IsDone (worker_rounds size dues (stop m))
        × (count p (worker_rounds size dues (stop m)).written ≡ count p queued)
  stop_lem p size dues {queued} {m} r w s l =
      let d : IsDone (worker_rounds size dues (stop m)) =
        stop-IsDone size dues m w (Reach-IsManned r w) s l in
      (
        d,
        omega (
          arith,
          Reach-placed p (Reach-worker_rounds size dues (next r (stops m))),
          ap (count p) d.no_batch,
          ap (count_queued p) d.no_queue,
        ),
      )
