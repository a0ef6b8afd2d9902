-- ===== src/Gateway/Metrics/Tests.antt =====
-- Concrete metrics.
use mnemostroma.Prelude.{List, [], ◌∷◌}
use mnemostroma.Gateway.Metrics.Counting.{Event, increments, ends}

abbrev events : List Event
events = increments "a" ∷ ends "t" 3 5 ∷ increments "b" ∷ increments "a" ∷ ends "t" 5 6 ∷ []
