-- ===== src/Gateway/Observation/Drained.antt =====
-- What a drain leaves of the registry.
use mathlib.Core.Path.{subst}
use mnemostroma.Prelude.{
  ℕ, ◌≡◌, refl, ◌∙◌, Bool, true, false, Option, none, some, List, [], ◌∷◌, ◌++◌, arith, nat_eq, ap,
  contains, All,
}
use mnemostroma.Gateway.Observation.{
  Registry, schedule, End, discard, run_failed, failed_done, task_done, finish_from, finish,
  all_done, drain,
}
use mnemostroma.Gateway.Observation.Tasks.{Distinct, discard_absent}
use mnemostroma.Gateway.Observation.Accounting.{
  IsAccounted, IsTracked, run_failed-IsTracked, failed_done-IsTracked, task_done-IsTracked,
}

discard_head : (t : ℕ) (ts : List ℕ) → Distinct (t ∷ ts) → discard t (t ∷ ts) ≡ ts
unfolding discard
discard_head t ts d = ground (arith, discard_absent t ts d.0)

contains-last : (t : ℕ) (ts : List ℕ) → contains t (ts ++ t ∷ []) ≡ true
contains-last t [] = ground arith
contains-last t (u ∷ ts) = ground (arith, contains-last t ts)

-- A task that was pending is finished.
abbrev IsFinished : ℕ → Registry → Registry → Type 0
IsFinished t r s =
    IsTracked s × (s.tasks ≡ discard t r.tasks) × (s.shutdown_started ≡ r.shutdown_started)

finished :
    (r : Registry) (t : ℕ) (end : Option End) (b : Bool)
    → contains t r.raised ≡ b
    → contains t r.tasks ≡ true
    → IsTracked r
    → IsFinished t r (finish_from b t end r)
unfolding finish_from run_failed failed_done task_done
finished r t end true h c v = (failed_done-IsTracked r t h v, refl, refl)
finished r t none false h c v = (
  failed_done-IsTracked (run_failed t r) t (contains-last t r.raised)
      (run_failed-IsTracked r t c h v),
  refl,
  refl,
)
finished r t (some e) false h c v = (task_done-IsTracked r t e c h v, refl, refl)

finish-IsFinished :
    (r : Registry) (t : ℕ) (end : Option End)
    → contains t r.tasks ≡ true
    → IsTracked r
    → IsFinished t r (finish t end r)
unfolding finish
finish-IsFinished r t end c v = finished r t end (contains t r.raised) refl c v

all_done-IsTracked :
    (ts : List ℕ) (ends : ℕ → Option End) (r : Registry)
    → r.tasks ≡ ts
    → IsTracked r
    → IsTracked (all_done ts ends r)
      × ((all_done ts ends r).tasks ≡ [])
      × ((all_done ts ends r).shutdown_started ≡ r.shutdown_started)
unfolding all_done
all_done-IsTracked [] ends r e v = (v, e, refl)
all_done-IsTracked (t ∷ ts) ends r e v =
    let c : contains t r.tasks ≡ true = rw e (ground arith) in
    let (v', same, shut) = finish-IsFinished r t (ends t) c v in
    let e' : (finish t (ends t) r).tasks ≡ ts =
      same ∙ ap (discard t) e ∙ discard_head t ts (subst Distinct e v.distinct) in
    let (w, none_left, shut') = all_done-IsTracked ts ends (finish t (ends t) r) e' v' in
    (w, none_left, shut' ∙ shut)

-- However the pending tasks end, a drained registry has none, still accounts for every
-- observation, and takes on no more: `schedule` answers false and changes nothing.
pub drain-IsTracked :
    (ends : ℕ → Option End) (r : Registry)
    → IsTracked r
    → IsTracked (drain ends r)
      × ((drain ends r).tasks ≡ [])
      × (schedule (drain ends r) ≡ (false, drain ends r))
unfolding drain schedule
drain-IsTracked ends r v =
    let stopped : Registry = record r { shutdown_started = true } in
    let (v', e, f) = all_done-IsTracked r.tasks ends stopped refl (record {
      fresh = v.fresh;
      distinct = v.distinct;
      bounded = v.bounded;
      raised_once = v.raised_once;
      raised_pending = v.raised_pending;
      accounted = v.accounted;
    }) in
    let after : Registry = all_done r.tasks ends stopped in
    (
      record {
        fresh = tt;
        distinct = tt;
        bounded = omega arith;
        raised_once = v'.raised_once;
        raised_pending =
            subst (λ ts. All (λ (t : ℕ). contains t ts ≡ true) after.raised) e v'.raised_pending;
        accounted = subst (λ ts. IsAccounted after.metrics ts after.raised) e v'.accounted;
      },
      refl,
      simp f,
    )
