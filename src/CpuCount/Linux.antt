-- ===== src/CpuCount/Linux.antt =====
-- threading/thread_helpers.cpp on Linux: `allowedLinuxCpus` and `CpuCount::get`. The calls of the
-- system are arguments; a core is known by the text of its list of processors.
pub mod Rounds
use native.Mathlib.Nat.{mul_assoc, pow-suc}
use cpputils.Base.{
  ℕ, zero, suc, ◌+◌, ◌*◌, ◌^◌, ◌%◌, ◌≤◌, ◌<◌, ◌≡◌, ap, List, [], ◌∷◌, ◌++◌, Bool, true, false, ◌&&◌,
  ◌||◌, if◌then◌else◌, ltb, length, max, arith, u32_mod, u64_mod, Option, none, some, bytes_eq,
  length-append, Option-cases, inl, inr,
}
use cpputils.CpuCount.{CpuCount, create, distinguishable_performance_classes}
use cpputils.CpuCount.Classes.{threads}
use cpputils.CpuCount.Cores.{Entry, add_processor, is_known, cores_of, add_processor_lem}

-- What `CPU_ALLOC` and `sched_getaffinity` come to for a set of so many bits: the set that was
-- filled in, `EINVAL`, or another failure.
pub data Affinity : Type 0 where
  allowed : (ℕ → Bool) → Affinity
  too_small : Affinity
  failed : Affinity

abbrev pub cpu_set_size : ℕ
cpu_set_size = 1024

-- The processors in the set with a number below the first argument.
unfoldable pub cpus_below : ℕ → (ℕ → Bool) → List ℕ
cpus_below zero is_set = []
cpus_below (suc n) is_set =
    let smaller = cpus_below n is_set in
    if is_set n then smaller ++ ((n % u32_mod) ∷ []) else smaller

-- One round with `bitCount` bits: a list to return, or the next round.
abbrev pub attempt : (ℕ → Affinity) → ℕ → Option (List ℕ)
attempt affinity bits = elim (affinity bits) [
  | allowed is_set ↦ some (cpus_below bits is_set)
  | too_small ↦ if ltb 2147483647 bits then some [] else none
  | failed ↦ some []
]

-- The `for (;; bitCount *= 2)`, for so many rounds.
unfoldable pub attempts : ℕ → (ℕ → Affinity) → ℕ → Option (List ℕ)
unfolding cpus_below
attempts zero affinity bits = none
attempts (suc fuel) affinity bits = elim (attempt affinity bits) [
  | none ↦ attempts fuel affinity ((bits * 2) % u64_mod)
  | some cpus ↦ some cpus
]

-- `configured` is what `sysconf` gives, 0 for an error. `CPU_SETSIZE` doubles past the limit of the
-- loop in 22 rounds.
unfoldable pub allowed_linux_cpus : (ℕ → Affinity) → ℕ → Option (List ℕ)
unfolding attempts
allowed_linux_cpus affinity configured =
    attempts 22 affinity (max (if ltb 0 configured then configured else cpu_set_size) cpu_set_size)

-- The files of `/sys/devices/system/cpu`, by processor: `none` where one cannot be read.
pub record CpuFiles : Type 0 where
  pub core_cpus_list : ℕ → Option (List ℕ)
  pub thread_siblings_list : ℕ → Option (List ℕ)
  pub cpu_capacity : ℕ → Option ℕ

abbrev pub core_cpus : CpuFiles → ℕ → Option (List ℕ)
core_cpus files cpu = elim (files.core_cpus_list cpu) [
  | none ↦ files.thread_siblings_list cpu
  | some text ↦ some text
]

abbrev pub value_read : Option ℕ → ℕ
value_read none = 0
value_read (some n) = n

abbrev pub was_read : Option ℕ → Bool
was_read none = false
was_read (some n) = true

-- The loop over the allowed processors, with `allCoresHaveRelativePerformance`; `none` where the
-- topology of a processor cannot be read.
unfoldable pub read_cores :
    CpuFiles → List ℕ → List (Entry (List ℕ)) → Bool → Option (List (Entry (List ℕ)) × Bool)
unfolding add_processor is_known
read_cores files [] cores all = some (cores, all)
read_cores files (cpu ∷ cpus) cores all = elim (core_cpus files cpu) [
  | none ↦ none
  | some key ↦
      let capacity = files.cpu_capacity cpu in
      read_cores files cpus (add_processor bytes_eq key (value_read capacity) cores)
        (all && (is_known bytes_eq key cores || was_read capacity))
]

-- What the loop over the processors came to, with `logicalProcessorCount`, makes the result.
unfoldable pub result_of : ℕ → Option (List (Entry (List ℕ)) × Bool) → CpuCount
unfolding create distinguishable_performance_classes
result_of count none = create count count []
result_of count (some (cores, all)) =
    create count (length (cores_of cores) % u32_mod)
      (if all then distinguishable_performance_classes (cores_of cores) else [])

-- `CpuCount::get` with the list that `allowedLinuxCpus` returned and `hardware_concurrency()`.
unfoldable pub get : CpuFiles → List ℕ → ℕ → CpuCount
unfolding create result_of read_cores
get files [] hardware = create (max 1 hardware) (max 1 hardware) []
get files (cpu ∷ cpus) hardware =
    result_of (length (cpu ∷ cpus) % u32_mod) (read_cores files (cpu ∷ cpus) [] true)
