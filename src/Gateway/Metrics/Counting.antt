-- ===== src/Gateway/Metrics/Counting.antt =====
-- A counter counts its increments, and an aggregate describes the recorded latencies.
use mnemostroma.Prelude.{
  ℕ, ◌+◌, ◌-◌, ◌*◌, ◌≤◌, String, ◌≡◌, refl, List, [], ◌∷◌, ◌++◌, map, arith, ◌==◌, string_eq,
  ==_iff, leb, if◌then◌else◌, length, All, ◌∙◌,
}
use mathlib.Core.Path.{subst, sym}
use mathlib.Core.List.{append-nil, append_assoc}
use mnemostroma.Prelude.Dict.{get, get-put}
use mnemostroma.Gateway.Metrics.{
  GatewayMetrics, empty, or_zero, or_empty, counter, increment, record_end, LatencyAggregate, sum,
  min_of, max_of, aggregate_list, aggregate,
}

pub counter-increment :
    (m : GatewayMetrics) (name other : String)
    → counter (increment name m) other ≡ counter m other + (if name == other then 1 else 0)
unfolding counter increment
counter-increment m name other =
    ground
      (arith, get-put m.counters name other (or_zero (get m.counters name) + 1), ==_iff name other)

pub counter-record_end :
    (m : GatewayMetrics) (name other : String) (start_s now : ℕ)
    → counter (record_end name start_s now m) other ≡ counter m other
unfolding counter record_end
counter-record_end m name other start_s now = refl

pub ruleset metrics_laws = (counter-increment, counter-record_end)

-- What happens to the metrics, in order.
pub data Event : Type 0 where
  increments : String → Event
  ends : String → ℕ → ℕ → Event

pub play : List Event → GatewayMetrics → GatewayMetrics
play [] m = m
play (increments name ∷ es) m = play es (increment name m)
play (ends name start_s now ∷ es) m = play es (record_end name start_s now m)

abbrev pub count_increments : String → List Event → ℕ
count_increments name [] = 0
count_increments name (increments other ∷ es) =
    (if other == name then 1 else 0) + count_increments name es
count_increments name (ends _ _ _ ∷ es) = count_increments name es

abbrev pub durations : String → List Event → List ℕ
durations name [] = []
durations name (increments _ ∷ es) = durations name es
durations name (ends other start_s now ∷ es) =
    let rest = durations name es in if other == name then (now - start_s) ∷ rest else rest

-- After any events, a counter has grown by the number of its increments.
pub counter-play :
    (es : List Event) (m : GatewayMetrics) (name : String)
    → counter (play es m) name ≡ counter m name + count_increments name es
unfolding play
counter-play [] m name = omega arith
counter-play (increments other ∷ es) m name =
    ground (arith, counter-play es (increment other m) name, counter-increment m other name)
counter-play (ends other s t ∷ es) m name =
    ground
      (arith, counter-play es (record_end other s t m) name, counter-record_end m other name s t)

latencies_of : GatewayMetrics → String → List ℕ
latencies_of m name = or_empty (get m.latencies name)

latencies-increment :
    (m : GatewayMetrics) (name other : String)
    → latencies_of (increment name m) other ≡ latencies_of m other
unfolding latencies_of increment
latencies-increment m name other = refl

latencies-record_end :
    (m : GatewayMetrics) (name other : String) (s t : ℕ)
    → latencies_of (record_end name s t m) other
      ≡ (if name == other then latencies_of m other ++ (t - s) ∷ [] else latencies_of m other)
unfolding latencies_of record_end
latencies-record_end m name other s t = ground (
  arith,
  get-put m.latencies name other (or_empty (get m.latencies name) ++ (t - s) ∷ []),
  ==_iff name other,
)

pub counter-empty : (name : String) → counter empty name ≡ 0
unfolding counter get
counter-empty name = refl

latencies-empty : (name : String) (ds : List ℕ) → latencies_of empty name ++ ds ≡ ds
unfolding latencies_of get or_empty
latencies-empty name ds = refl

latencies-play :
    (es : List Event) (m : GatewayMetrics) (name : String)
    → latencies_of (play es m) name ≡ latencies_of m name ++ durations name es
unfolding play
latencies-play [] m name = rw append-nil
latencies-play (increments other ∷ es) m name =
    ground (arith, latencies-play es (increment other m) name, latencies-increment m other name)
latencies-play (ends other s t ∷ es) m name = ground (
  arith,
  latencies-play es (record_end other s t m) name,
  latencies-record_end m other name s t,
  append_assoc (latencies_of m name) ((t - s) ∷ []) (durations name es),
)

abbrev thousands : List ℕ → List ℕ
thousands = map (λ (t : ℕ). t * 1000)

-- A bound below the minimum is below every duration, and one above the maximum above each.
min_of_all :
    (b t : ℕ) (ds : List ℕ)
    → b ≤ min_of t (thousands ds)
    → (b ≤ t) × All (λ (d : ℕ). b ≤ d * 1000) ds
min_of_all b t [] h = (h, tt)
min_of_all b t (d ∷ ds) h =
    ground (arith, min_of_all b (if leb t (d * 1000) then t else d * 1000) ds h)

max_of_all :
    (b t : ℕ) (ds : List ℕ)
    → max_of t (thousands ds) ≤ b
    → (t ≤ b) × All (λ (d : ℕ). d * 1000 ≤ b) ds
max_of_all b t [] h = (h, tt)
max_of_all b t (d ∷ ds) h =
    ground (arith, max_of_all b (if leb (d * 1000) t then t else d * 1000) ds h)

sum-thousands : (ds : List ℕ) → sum (thousands ds) ≡ sum ds * 1000
sum-thousands [] = omega arith
sum-thousands (d ∷ ds) = omega (arith, sum-thousands ds)

-- What an aggregate says of durations.
pub record Describes (a : LatencyAggregate) (ds : List ℕ) : Type 0 where
  pub count : a.count ≡ length ds
  pub total : a.sum_ms ≡ sum ds * 1000
  pub least : All (λ (d : ℕ). a.min_ms ≤ d * 1000) ds
  pub greatest : All (λ (d : ℕ). d * 1000 ≤ a.max_ms) ds

aggregate_list-Describes : (ds : List ℕ) → Describes (aggregate_list ds) ds
unfolding aggregate_list
aggregate_list-Describes [] = ground arith
aggregate_list-Describes (d ∷ ds) =
    let t : ℕ = d * 1000 in
    record {
      count = omega arith;
      total = omega (arith, sum-thousands ds);
      least = min_of_all (min_of t (thousands ds)) t ds (omega arith);
      greatest = max_of_all (max_of t (thousands ds)) t ds (omega arith);
    }

-- From empty metrics, after any events in any order: each counter is the number of its
-- increments, and the aggregate of each name has the count, the total, a lower and an upper bound
-- of exactly the durations that were recorded under it.
pub play_lem :
    (es : List Event) (name : String)
    → (counter (play es empty) name ≡ count_increments name es)
      × Describes (aggregate (play es empty) name) (durations name es)
unfolding aggregate get latencies_of
play_lem es name = (
  omega (arith, counter-play es empty name, counter-empty name),
  subst (λ ds. Describes (aggregate_list ds) (durations name es))
      (sym (latencies-play es empty name ∙ latencies-empty name (durations name es)))
      (aggregate_list-Describes (durations name es)),
)
