-- ===== src/Profiler.antt =====
-- timing/profiler.cpp and .h: the registry of counters. A reference to a counter is its index in the
-- deque; a name is a list of bytes.
pub mod Registry
pub mod Scopes
pub mod Reports
use cpputils.Base.{
  ℕ, zero, suc, ◌+◌, List, [], ◌∷◌, ◌++◌, Option, none, some, bytes_eq, one_on, set, get_elem?, map,
  if◌then◌else◌, length, add64,
}

-- `Accumulator`
pub record Accumulator : Type 0 where
  pub name : List ℕ
  pub ns : ℕ
  pub calls : ℕ

-- The loop of `counter` over the counters there are.
unfoldable pub existing : List ℕ → List Accumulator → Option ℕ
existing name [] = none
existing name (a ∷ rest) = if bytes_eq name a.name then some 0 else one_on (existing name rest)

-- `counter(name)`
unfoldable pub counter : List ℕ → List Accumulator → ℕ × List Accumulator
unfolding existing
counter name counters = elim (existing name counters) [
  | some i ↦ (i, counters)
  | none ↦ (length counters, counters ++ record { name = name; ns = 0; calls = 0 } ∷ [])
]

-- The end of a `Sample` that lasted for `ns`.
unfoldable pub add_sample : ℕ → Accumulator → Accumulator
add_sample ns a = record a { ns = add64 a.ns ns; calls = add64 a.calls 1 }

unfoldable pub sample : ℕ → ℕ → List Accumulator → List Accumulator
unfolding add_sample
sample i ns counters = elim (get_elem? counters i) [
  | none ↦ counters
  | some a ↦ set counters i (add_sample ns a)
]

-- `Accumulator::reset`
unfoldable pub reset : Accumulator → Accumulator
reset a = record a { ns = 0; calls = 0 }

unfoldable pub reset_counters : List Accumulator → List Accumulator
unfolding reset
reset_counters counters = map reset counters
