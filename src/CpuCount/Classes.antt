-- ===== src/CpuCount/Classes.antt =====
-- How cores are grouped.
use cpputils.Base.{
  ℕ, ◌+◌, ◌≤◌, ◌<◌, ◌≡◌, List, [], ◌∷◌, ltb, length, arith, sum_of, u32_mod, ◌⊎◌, inl, inr,
  Bool-cases,
}
use cpputils.CpuCount.{
  PerformanceClass, Core, add_core, add_cores, distinguishable_performance_classes,
}

-- The classes ascend, and none is below the first number.
abbrev pub IsAscending : List PerformanceClass → Type 0
IsAscending [] = Unit
IsAscending (c ∷ []) = Unit
IsAscending (c ∷ d ∷ cs) = (c.relative_performance < d.relative_performance) × IsAscending (d ∷ cs)

abbrev pub physical : List PerformanceClass → ℕ
physical cs = sum_of (λ (c : PerformanceClass). c.physical_core_count) cs

abbrev pub logical : List PerformanceClass → ℕ
logical cs = sum_of (λ (c : PerformanceClass). c.logical_processor_count) cs

abbrev pub threads : List Core → ℕ
threads cores = sum_of (λ (c : Core). c.logical_processor_count) cores

add_core-sums :
    (core : Core) (cs : List PerformanceClass)
    → physical cs + 1 < u32_mod
    → logical cs + core.logical_processor_count < u32_mod
    → (physical (add_core core cs) ≡ physical cs + 1)
      × (logical (add_core core cs) ≡ logical cs + core.logical_processor_count)
unfolding add_core
add_core-sums core [] h k = ground arith
add_core-sums core (c ∷ cs) h k = ground (arith, add_core-sums core cs)

add_core-IsAscending :
    (core : Core) (cs : List PerformanceClass) → IsAscending cs → IsAscending (add_core core cs)
unfolding add_core
add_core-IsAscending core [] h = tt
add_core-IsAscending core (c ∷ []) h = ground arith
add_core-IsAscending core (c ∷ d ∷ cs) h = ground (arith, add_core-IsAscending core (d ∷ cs))

add_cores_lem :
    (cores : List Core) (cs : List PerformanceClass)
    → physical cs + length cores < u32_mod
    → logical cs + threads cores < u32_mod
    → IsAscending cs
    → (physical (add_cores cores cs) ≡ physical cs + length cores)
      × (logical (add_cores cores cs) ≡ logical cs + threads cores)
      × IsAscending (add_cores cores cs)
unfolding add_cores
add_cores_lem [] cs h k v = (omega arith, omega arith, v)
add_cores_lem (core ∷ cores) cs h k v =
    let (p, l) = add_core-sums core cs (omega arith) (omega arith) in
    let (p', l', v') =
      add_cores_lem cores (add_core core cs) (omega arith) (omega arith)
        (add_core-IsAscending core cs v) in
    (omega arith, omega arith, v')

-- Where cores fall into two classes or more, the classes ascend by performance and together have as
-- many cores and as many logical processors as there are (counts that fit 32 bits).
pub classes_lem :
    (cores : List Core)
    → length cores < u32_mod
    → threads cores < u32_mod
    → let cs = distinguishable_performance_classes cores in
      (cs ≡ [])
      ⊎ ((2 ≤ length cs)
          × (physical cs ≡ length cores)
          × (logical cs ≡ threads cores)
          × IsAscending cs)
unfolding distinguishable_performance_classes
classes_lem cores h k =
    let (p, l, v) = add_cores_lem cores [] (omega arith) (omega arith) tt in
    elim (Bool-cases (ltb (length (add_cores cores [])) 2)) [
      | inl few ↦ inl (ground arith)
      | inr many ↦ inr (ground arith)
    ]
