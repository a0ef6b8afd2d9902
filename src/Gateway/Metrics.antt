-- ===== src/Gateway/Metrics.antt =====
-- gateway/metrics.py: counters and latencies by name. Times are the ticks of the clock, which does
-- not run backwards, and a second of the source is one tick.
mod Tests
pub mod Counting
use mnemostroma.Prelude.{
  ℕ, zero, suc, ◌+◌, ◌-◌, ◌*◌, String, Option, none, some, List, [], ◌∷◌, ◌++◌, map, string_eq, leb,
  if◌then◌else◌, length,
}
use mnemostroma.Prelude.Dict.{Dict, get, put}

pub record GatewayMetrics : Type 0 where
  pub counters : Dict String ℕ
  pub latencies : Dict String (List ℕ)

abbrev pub empty : GatewayMetrics
empty = record { counters = []; latencies = [] }

or_zero : Option ℕ → ℕ
or_zero none = 0
or_zero (some n) = n

or_empty : Option (List ℕ) → List ℕ
or_empty none = []
or_empty (some ts) = ts

-- `_counter` of `snapshot`
pub counter : GatewayMetrics → String → ℕ
unfolding or_zero
counter m name = or_zero (get m.counters name)

pub increment : String → GatewayMetrics → GatewayMetrics
unfolding or_zero
increment name m = record m { counters = put m.counters name (or_zero (get m.counters name) + 1) }

-- The reading of the clock is `now`.
pub record_end : String → ℕ → ℕ → GatewayMetrics → GatewayMetrics
unfolding or_empty
record_end name start_s now m = record m {
  latencies = put m.latencies name (or_empty (get m.latencies name) ++ (now - start_s) ∷ []);
}

pub record LatencyAggregate : Type 0 where
  pub count : ℕ
  pub sum_ms : ℕ
  pub min_ms : ℕ
  pub max_ms : ℕ

abbrev pub sum : List ℕ → ℕ
sum [] = 0
sum (t ∷ ts) = t + sum ts

-- `min` and `max` of a list that is not empty
abbrev pub min_of : ℕ → List ℕ → ℕ
min_of t [] = t
min_of t (u ∷ ts) = min_of (if leb t u then t else u) ts

abbrev pub max_of : ℕ → List ℕ → ℕ
max_of t [] = t
max_of t (u ∷ ts) = max_of (if leb u t then t else u) ts

aggregate_list : List ℕ → LatencyAggregate
aggregate_list [] = record { count = 0; sum_ms = 0; min_ms = 0; max_ms = 0 }
aggregate_list (v ∷ vals) =
    let ms = map (λ (t : ℕ). t * 1000) vals in
    record {
      count = length vals + 1;
      sum_ms = v * 1000 + sum ms;
      min_ms = min_of (v * 1000) ms;
      max_ms = max_of (v * 1000) ms;
    }

-- `_aggregate` of `snapshot`
pub aggregate : GatewayMetrics → String → LatencyAggregate
unfolding aggregate_list or_empty
aggregate m name = aggregate_list (or_empty (get m.latencies name))
