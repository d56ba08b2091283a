-- ===== src/CpuCount/Results.antt =====
-- What `CpuCount::get` gives on each system fits together.
use cpputils.Base.{
  ℕ, ◌+◌, ◌%◌, ◌≤◌, ◌<◌, ◌≡◌, refl, List, [], ◌∷◌, Bool, true, if◌then◌else◌, ◌==◌, length, max,
  add32, arith, u32_mod, ◌⊎◌, inl, inr, Option, none, some, Bool-cases,
}
use cpputils.CpuCount.{
  PerformanceClass, Core, CpuCount, create, last_or, performance_core_count, efficiency_core_count,
  distinguishable_performance_classes,
}
use cpputils.CpuCount.Classes.{IsAscending, physical, logical, threads, classes_lem}
use cpputils.CpuCount.Cores.{Entry, cores_of, add_processor, add_processor_lem}
use cpputils.CpuCount.Linux
use cpputils.CpuCount.Linux.Rounds.{allowed_linux_cpus-returns, read_cores_lem}
use cpputils.CpuCount.Windows.Rounds.{windows_cpu_sets-returns}
use cpputils.CpuCount.Windows

-- The classes are none, or they ascend and share out the cores and the logical processors.
abbrev Fits : ℕ → ℕ → List PerformanceClass → Type 0
Fits l p classes =
    (classes ≡ []) ⊎ ((physical classes ≡ p) × (logical classes ≡ l) × IsAscending classes)

unfoldable pub IsConsistent : CpuCount → Type 0
unfolding performance_core_count efficiency_core_count
IsConsistent c =
    (1 ≤ c.physical_core_count)
    × (c.physical_core_count ≤ c.logical_processor_count)
    × Fits c.logical_processor_count c.physical_core_count c.performance_classes
    × (performance_core_count c ≤ c.physical_core_count)
    × (performance_core_count c + efficiency_core_count c ≡ c.physical_core_count)

last_or-le :
    (c : PerformanceClass) (cs : List PerformanceClass) (n : ℕ)
    → last_or (c ∷ cs) n ≤ physical (c ∷ cs)
last_or-le c [] n = ground arith
last_or-le c (d ∷ cs) n = ground (arith, last_or-le d cs n)

last_or-le_physical :
    (l p : ℕ) (classes : List PerformanceClass) → Fits l p classes → last_or classes p ≤ p
last_or-le_physical l p [] h = ground arith
last_or-le_physical l p (c ∷ cs) h = ground (arith, last_or-le c cs p)

create-IsConsistent :
    (l p : ℕ) (classes : List PerformanceClass)
    → 1 ≤ p
    → p ≤ l
    → l < u32_mod
    → Fits l p classes
    → IsConsistent (create l p classes)
unfolding create performance_core_count efficiency_core_count IsConsistent
create-IsConsistent l p classes one le fits h = ground (arith, last_or-le_physical l p classes h)

pub uniform-IsConsistent : (n : ℕ) → 1 ≤ n → n < u32_mod → IsConsistent (create n n [])
uniform-IsConsistent n one fits = create-IsConsistent n n [] one (omega arith) fits (inl refl)

-- Cores with so many threads in all, and no more cores than threads.
cores-IsConsistent :
    (cores : List Core) (l : ℕ)
    → threads cores ≡ l
    → 1 ≤ length cores
    → length cores ≤ l
    → l < u32_mod
    → (all : Bool)
    → IsConsistent (
        create l
          (length cores % u32_mod)
          (if all then distinguishable_performance_classes cores else []))
cores-IsConsistent cores l t one le fits all =
    create-IsConsistent l (length cores % u32_mod)
      (if all then distinguishable_performance_classes cores else []) (ground arith) (ground arith)
      fits (ground (arith, classes_lem cores (omega arith) (omega arith)))

mod_lem : (n : ℕ) → n < u32_mod → n % u32_mod ≡ n
mod_lem n h = omega arith

some_core : (cores : List Core) → 1 ≤ threads cores → 1 ≤ length cores
some_core [] h = ground arith
some_core (c ∷ cs) h = ground arith

linux_result-IsConsistent :
    (files : Linux.CpuFiles) (cpus : List ℕ) (n : ℕ) (r : Option (List (Entry (List ℕ)) × Bool))
    → length cpus ≡ n
    → 1 ≤ n
    → n < u32_mod
    → Linux.read_cores files cpus [] true ≡ r
    → IsConsistent (Linux.result_of n r)
unfolding Linux.result_of
linux_result-IsConsistent files cpus n none l one h e = uniform-IsConsistent n one h
linux_result-IsConsistent files cpus n (some (cores, all)) l one h e =
    let (t, b, g) = read_cores_lem files cpus [] true (cores, all) (omega arith) e in
    cores-IsConsistent (cores_of cores) n (omega arith) (some_core (cores_of cores) (omega arith))
      (omega arith) h all

linux_get_lem :
    (files : Linux.CpuFiles) (cpus : List ℕ) (hardware : ℕ)
    → length cpus < u32_mod
    → hardware < u32_mod
    → IsConsistent (Linux.get files cpus hardware)
unfolding Linux.get
linux_get_lem files [] hardware h k =
    uniform-IsConsistent (max 1 hardware) (ground arith) (ground arith)
linux_get_lem files (cpu ∷ cpus) hardware h k = rw (mod_lem (length (cpu ∷ cpus)) h) (
    linux_result-IsConsistent files (cpu ∷ cpus) (length (cpu ∷ cpus)) _ refl (ground arith) h refl)

add_cpu_sets_lem :
    (masks : List Windows.GroupMask) (sets : List Windows.CpuSet) (count : ℕ)
    (cores : List (Entry (ℕ × ℕ)))
    → threads (cores_of cores) ≡ count
    → length (cores_of cores) ≤ count
    → count + length sets < u32_mod
    → let r = Windows.add_cpu_sets masks sets count cores in
      (threads (cores_of r.1) ≡ r.0) × (length (cores_of r.1) ≤ r.0) × (r.0 < u32_mod)
unfolding Windows.add_cpu_sets
add_cpu_sets_lem masks [] count cores t l h = ground arith
add_cpu_sets_lem masks (s ∷ ss) count cores t l h =
    let key : ℕ × ℕ = (s.group, s.core_index) in
    let added =
      add_processor_lem Windows.same_core key s.relative_performance cores (ground arith) in
    elim (Bool-cases (Windows.is_available masks s)) [
      | inl e ↦
          rw (e, Windows.add_cpu_sets)
            (add_cpu_sets_lem masks ss (add32 count 1)
              (add_processor Windows.same_core key s.relative_performance cores) (ground arith)
              (ground arith) (ground arith))
      | inr e ↦
          rw (e, Windows.add_cpu_sets) (add_cpu_sets_lem masks ss count cores t l (ground arith))
    ]

affinity_count-lt : (masks : List Windows.GroupMask) → Windows.affinity_count masks < u32_mod
affinity_count-lt [] = omega arith
affinity_count-lt (m ∷ ms) = omega arith

windows_result-IsConsistent :
    (affinity hardware count : ℕ) (cores : List (Entry (ℕ × ℕ)))
    → affinity < u32_mod
    → hardware < u32_mod
    → count < u32_mod
    → threads (cores_of cores) ≡ count
    → length (cores_of cores) ≤ count
    → IsConsistent (Windows.result_of affinity hardware (count, cores))
unfolding Windows.result_of
windows_result-IsConsistent affinity hardware count cores a h c t l =
    let fallback = if affinity == 0 then max 1 hardware else affinity in
    elim (Bool-cases (count == 0)) [
      | inl e ↦ rw e (uniform-IsConsistent fallback (ground arith) (ground arith))
      | inr e ↦ rw e (
          cores-IsConsistent (cores_of cores) count t (some_core (cores_of cores) (ground arith)) l
            c true)
    ]

windows_get_lem :
    (os : Windows.WindowsSystem) (sets : List Windows.CpuSet)
    → length sets < u32_mod
    → os.hardware_concurrency < u32_mod
    → IsConsistent (Windows.get os sets)
unfolding Windows.get
windows_get_lem os sets h k =
    let masks = Windows.available_masks os sets in
    let (t, l, b) = add_cpu_sets_lem masks sets 0 [] refl (omega arith) (omega arith) in
    windows_result-IsConsistent (Windows.affinity_count masks) os.hardware_concurrency _ _
      (affinity_count-lt masks) k b t l

-- On Linux, whatever the system and its files say (with fewer than 2^31 processors configured):
-- `allowedLinuxCpus` returns, and in the result of `get` the physical cores are one at least and no
-- more than the logical processors, the classes are none or ascend and share out both, and the
-- performance cores and the efficiency cores are together the physical ones.
pub linux_get-IsConsistent :
    (files : Linux.CpuFiles) (affinity : ℕ → Linux.Affinity) (configured hardware : ℕ)
    → configured < 2147483648
    → hardware < u32_mod
    → (cpus : List ℕ) × (Linux.allowed_linux_cpus affinity configured ≡ some cpus)
      × IsConsistent (Linux.get files cpus hardware)
linux_get-IsConsistent files affinity configured hardware h k =
    let (cpus, e, few) = allowed_linux_cpus-returns affinity configured h in
    (cpus, e, linux_get_lem files cpus hardware few k)

-- On Windows, whatever the system says (with a buffer size that fits its 32 bits): `windowsCpuSets`
-- returns, and the counts in the result of `get` fit together in the same way.
pub windows_get-IsConsistent :
    (os : Windows.WindowsSystem)
    → Windows.buffer_size os < u32_mod
    → os.hardware_concurrency < u32_mod
    → (sets : List Windows.CpuSet) × (Windows.windows_cpu_sets os ≡ some sets)
      × IsConsistent (Windows.get os sets)
windows_get-IsConsistent os h k =
    let (sets, e, few) = windows_cpu_sets-returns os h in (sets, e, windows_get_lem os sets few k)
