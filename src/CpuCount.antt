-- ===== src/CpuCount.antt =====
-- threading/thread_helpers.cpp and .h: `CpuCount`. Counts are `uint32_t`; the cores come from the
-- system. A performance is a number of which only the order matters.
pub mod Classes
pub mod Cores
pub mod Linux
pub mod Windows
pub mod Results
pub mod Others
use cpputils.Base.{
  ℕ, ◌+◌, ◌-◌, List, [], ◌∷◌, ltb, ◌==◌, if◌then◌else◌, length, add32, min, max, u32_mod, ◌%◌,
}

pub record PerformanceClass : Type 0 where
  pub relative_performance : ℕ
  pub physical_core_count : ℕ
  pub logical_processor_count : ℕ

pub record Core : Type 0 where
  pub logical_processor_count : ℕ
  pub relative_performance : ℕ

pub record CpuCount : Type 0 where
  pub logical_processor_count : ℕ
  pub physical_core_count : ℕ
  pub performance_classes : List PerformanceClass

-- The constructor: `std::max(1u, ...)` and `std::clamp(..., 1u, ...)`.
unfoldable pub create : ℕ → ℕ → List PerformanceClass → CpuCount
create logical physical classes =
    let l = max 1 logical in
    record {
      logical_processor_count = l;
      physical_core_count = if ltb physical 1 then 1 else (if ltb l physical then l else physical);
      performance_classes = classes;
    }

abbrev count_core : Core → PerformanceClass → PerformanceClass
count_core core c = record {
  relative_performance = core.relative_performance;
  physical_core_count = add32 c.physical_core_count 1;
  logical_processor_count = add32 c.logical_processor_count core.logical_processor_count;
}

-- `classes[core.relativePerformance]`, in a map ordered by the key, and what is done to it.
unfoldable pub add_core : Core → List PerformanceClass → List PerformanceClass
add_core core [] =
    count_core core
      (record { relative_performance = 0; physical_core_count = 0; logical_processor_count = 0 })
    ∷ []
add_core core (c ∷ cs) =
    if core.relative_performance == c.relative_performance
    then count_core core c ∷ cs
    else (if ltb core.relative_performance c.relative_performance
        then (count_core core (record {
          relative_performance = 0;
          physical_core_count = 0;
          logical_processor_count = 0;
        })
            ∷ c
            ∷ cs)
        else c ∷ add_core core cs)

unfoldable pub add_cores : List Core → List PerformanceClass → List PerformanceClass
unfolding add_core
add_cores [] classes = classes
add_cores (core ∷ cores) classes = add_cores cores (add_core core classes)

-- `distinguishablePerformanceClasses`
unfoldable pub distinguishable_performance_classes : List Core → List PerformanceClass
unfolding add_cores
distinguishable_performance_classes cores =
    let classes = add_cores cores [] in if ltb (length classes) 2 then [] else classes

abbrev last_or : List PerformanceClass → ℕ → ℕ
last_or [] n = n
last_or (c ∷ []) n = c.physical_core_count
last_or (c ∷ d ∷ cs) n = last_or (d ∷ cs) n

unfoldable pub performance_core_count : CpuCount → ℕ
performance_core_count c = last_or c.performance_classes c.physical_core_count

-- The subtraction of `uint32_t` wraps around.
unfoldable pub efficiency_core_count : CpuCount → ℕ
unfolding performance_core_count
efficiency_core_count c = (c.physical_core_count + u32_mod - performance_core_count c) % u32_mod
