-- ===== src/CpuCount/Linux/Rounds.antt =====
-- `allowedLinuxCpus` comes to its end, and the loop over its processors counts each of them.
use native.Mathlib.Nat.{mul_assoc, pow-suc}
use cpputils.Base.{
  ℕ, zero, suc, ◌+◌, ◌*◌, ◌^◌, ◌%◌, ◌≤◌, ◌<◌, ◌≡◌, ap, List, [], ◌∷◌, Bool, ◌&&◌, ◌||◌,
  if◌then◌else◌, ltb, length, max, arith, u32_mod, u64_mod, none, some, bytes_eq, length-append,
  Option-cases, inl, inr,
}
use cpputils.CpuCount.Classes.{threads}
use cpputils.CpuCount.Cores.{Entry, add_processor, is_known, cores_of, add_processor_lem}
use cpputils.CpuCount.Linux.{
  Affinity, allowed, too_small, failed, cpu_set_size, cpus_below, attempt, attempts,
  allowed_linux_cpus, CpuFiles, core_cpus, value_read, was_read, read_cores,
}

attempt-none_lem :
    (affinity : ℕ → Affinity) (bits : ℕ) → attempt affinity bits ≡ none → bits ≤ 2147483647
attempt-none_lem affinity bits e =
    elim (affinity bits)
        as (λ a.
          elim a [
            | allowed is_set ↦ some (cpus_below bits is_set)
            | too_small ↦ if ltb 2147483647 bits then some [] else none
            | failed ↦ some []
          ]
            ≡ none
          → bits ≤ 2147483647) [
            | allowed is_set ↦ λ h. ground arith
            | too_small ↦ λ h. ground arith
            | failed ↦ λ h. ground arith
          ]
      e

double_pow : (n k : ℕ) → 2147483648 ≤ n * 2 ^ suc k → 2147483648 ≤ n * 2 * 2 ^ k
double_pow n k h =
    omega (arith, mul_assoc n 2 (2 ^ k), mul_assoc n (2 ^ k) 2, ap (λ (t : ℕ). n * t) (pow-suc 2 k))

-- The loop returns in a round where the bits have passed the limit.
attempts-returns :
    (fuel : ℕ) (affinity : ℕ → Affinity) (bits : ℕ)
    → 2147483648 ≤ bits * 2 ^ fuel
    → (cpus : List ℕ) × (attempts (suc fuel) affinity bits ≡ some cpus)
unfolding attempts
attempts-returns zero affinity bits h = elim (Option-cases (attempt affinity bits)) [
  | inl e ↦ absurd (omega (arith, attempt-none_lem affinity bits e))
  | inr (cpus, e) ↦ (cpus, ground arith)
]
attempts-returns (suc fuel) affinity bits h = elim (Option-cases (attempt affinity bits)) [
  | inl e ↦
      let (cpus, r) = attempts-returns fuel affinity (bits * 2) (double_pow bits fuel h) in
      (cpus, ground (arith, attempt-none_lem affinity bits e))
  | inr (cpus, e) ↦ (cpus, ground arith)
]

length-cpus_below : (n : ℕ) (is_set : ℕ → Bool) → length (cpus_below n is_set) ≤ n
unfolding cpus_below
length-cpus_below zero is_set = omega arith
length-cpus_below (suc n) is_set =
    ground
      (arith, length-cpus_below n is_set, length-append (cpus_below n is_set) ((n % u32_mod) ∷ []))

attempt-few :
    (affinity : ℕ → Affinity) (bits : ℕ) (cpus : List ℕ)
    → attempt affinity bits ≡ some cpus
    → length cpus ≤ bits
attempt-few affinity bits cpus e =
    elim (affinity bits)
        as (λ a.
          elim a [
            | allowed is_set ↦ some (cpus_below bits is_set)
            | too_small ↦ if ltb 2147483647 bits then some [] else none
            | failed ↦ some []
          ]
            ≡ some cpus
          → length cpus ≤ bits) [
            | allowed is_set ↦ λ h. ground (arith, length-cpus_below bits is_set)
            | too_small ↦ λ h. ground arith
            | failed ↦ λ h. ground arith
          ]
      e

attempts-few :
    (fuel : ℕ) (affinity : ℕ → Affinity) (bits : ℕ) (cpus : List ℕ)
    → bits < u32_mod
    → attempts fuel affinity bits ≡ some cpus
    → length cpus < u32_mod
unfolding attempts
attempts-few zero affinity bits cpus h e = absurd (ground arith)
attempts-few (suc fuel) affinity bits cpus h e = elim (Option-cases (attempt affinity bits)) [
  | inl next_round ↦
      attempts-few fuel affinity ((bits * 2) % u64_mod) cpus
        (ground (arith, attempt-none_lem affinity bits next_round)) (ground arith)
  | inr (found, now) ↦ ground (arith, attempt-few affinity bits found now)
]

-- `allowedLinuxCpus` returns, whatever the system answers: at most 22 rounds are made. The numbers
-- that it returns are fewer than 2^32, if no more than 2^31 processors are configured.
pub allowed_linux_cpus-returns :
    (affinity : ℕ → Affinity) (configured : ℕ)
    → configured < 2147483648
    → (cpus : List ℕ) × (allowed_linux_cpus affinity configured ≡ some cpus)
      × (length cpus < u32_mod)
unfolding allowed_linux_cpus
allowed_linux_cpus-returns affinity configured h =
    let bits = max (if ltb 0 configured then configured else cpu_set_size) cpu_set_size in
    let (cpus, e) = attempts-returns 21 affinity bits (ground arith) in
    (cpus, e, attempts-few 22 affinity bits cpus (ground arith) e)

abbrev threads_of : List (Entry (List ℕ)) → ℕ
threads_of cores = threads (cores_of cores)

-- Each processor read is counted once, in a core; there is at least one core, and no more than
-- processors.
pub read_cores_lem :
    (files : CpuFiles) (cpus : List ℕ) (cores : List (Entry (List ℕ))) (all : Bool)
    (r : List (Entry (List ℕ)) × Bool)
    → threads_of cores + length cpus < u32_mod
    → read_cores files cpus cores all ≡ some r
    → (threads_of r.0 ≡ threads_of cores + length cpus)
      × (length (cores_of r.0) ≤ length (cores_of cores) + length cpus)
      × (length (cores_of cores) ≤ length (cores_of r.0))
unfolding read_cores
read_cores_lem files [] cores all r h e = ground arith
read_cores_lem files (cpu ∷ cpus) cores all r h e = elim (Option-cases (core_cpus files cpu)) [
  | inl none_read ↦ ground arith
  | inr (key, read) ↦
      let capacity = files.cpu_capacity cpu in
      let (t, l, g, p) = add_processor_lem bytes_eq key (value_read capacity) cores (omega arith) in
      let added = add_processor bytes_eq key (value_read capacity) cores in
      let (t', l', g') =
        read_cores_lem files cpus added (all && (is_known bytes_eq key cores || was_read capacity))
          r (omega arith) (ground arith) in
      (omega arith, omega arith, omega arith)
]
