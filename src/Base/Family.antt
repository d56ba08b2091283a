-- ===== src/Base/Family.antt =====
-- What each thread has, as a function of its number: writes, and sums over the first `n` threads.
use Prim.Native.Nat.{ℕ, zero, suc, ◌+◌, ◌-◌, ◌*◌, ◌≤◌, ◌<◌}
use mathlib.Core.Path.{◌≡◌, refl, ap}
use native.Mathlib.Nat.{suc-mul}
use native.Mathlib.Omega.{arith}
use native.Mathlib.Decide.{ℕ_discrete}
use cpputils.Base.Tests.{◌==◌, ltb, if◌then◌else◌}

abbrev pub update {ℓ} : {A : Type ℓ} → (ℕ → A) → ℕ → A → ℕ → A
update f i a j = if i == j then a else f j

module _ {ℓ} {A : Type ℓ} (weight : A → ℕ) where
  pub total : ℕ → (ℕ → A) → ℕ
  total zero family = 0
  total (suc k) family = weight (family k) + total k family

  -- A write moves the sum by the difference of the two weights if its index is counted.
  total-update_if :
      (k i : ℕ) (family : ℕ → A) (new : A)
      → total k (update family i new) + (if ltb i k then weight (family i) else 0)
        ≡ total k family + (if ltb i k then weight new else 0)
  unfolding total
  total-update_if zero i family new = ground arith
  total-update_if (suc k) i family new = ground (arith, total-update_if k i family new)

  pub total-update :
      (k : ℕ) (family : ℕ → A) (i : ℕ) (new : A) (counted : i < k)
      → total k (update family i new) + weight (family i) ≡ total k family + weight new
  total-update k family i new counted = ground (arith, total-update_if k i family new)

  pub total-le : (k : ℕ) (family : ℕ → A) (i : ℕ) → i < k → weight (family i) ≤ total k family
  unfolding total
  total-le zero family i counted = absurd (omega arith)
  total-le (suc k) family i counted = ground (arith, total-le k family i)

  pub total-eq-zero :
      (k : ℕ) (family : ℕ → A) (nothing : (i : ℕ) → weight (family i) ≡ 0) → total k family ≡ 0
  unfolding total
  total-eq-zero zero family nothing = refl
  total-eq-zero (suc k) family nothing = omega (arith, nothing k, total-eq-zero k family nothing)

pub total_mono {ℓ} :
    {A : Type ℓ} (v w : A → ℕ)
    → ((a : A) → v a ≤ w a)
    → (n : ℕ) (f : ℕ → A) → total v n f ≤ total w n f
unfolding total
total_mono v w h zero f = omega arith
total_mono v w h (suc n) f = omega (arith, total_mono v w h n f, h (f n))

pub total-map {ℓ} :
    {A : Type ℓ} (v w : A → ℕ) (g : A → A)
    → ((a : A) → v (g a) ≡ w a)
    → (n : ℕ) (f : ℕ → A) → total v n (λ i. g (f i)) ≡ total w n f
unfolding total
total-map v w g h zero f = refl
total-map v w g h (suc n) f = omega (arith, total-map v w g h n f, h (f n))

pub total-add {ℓ} :
    {A : Type ℓ} (u v w : A → ℕ)
    → ((a : A) → u a + v a ≡ w a)
    → (n : ℕ) (f : ℕ → A) → total u n f + total v n f ≡ total w n f
unfolding total
total-add u v w h zero f = refl
total-add u v w h (suc n) f = omega (arith, total-add u v w h n f, h (f n))

-- Where the weights are too few for all, some index has none.
pub total_misses {ℓ} :
    {A : Type ℓ} (w : A → ℕ) (n : ℕ) (f : ℕ → A)
    → total w n f < n
    → (i : ℕ) × (i < n) × (w (f i) ≡ 0)
unfolding total
total_misses w zero f h = absurd (omega arith)
total_misses w (suc n) f h = elim (ℕ_discrete (w (f n)) 0) [
  | yes none_here ↦ (n, omega arith, none_here)
  | no some_here ↦
      let (i, lt, none_there) = total_misses w n f (omega arith) in (i, omega arith, none_there)
]

-- A sum with one summand taken out.
abbrev pub total_except {ℓ} : {A : Type ℓ} → (A → ℕ) → ℕ → (ℕ → A) → ℕ → ℕ
total_except w n f i = total w n f - w (f i)

pub total-split {ℓ} :
    {A : Type ℓ} (w : A → ℕ) (n : ℕ) (f : ℕ → A) (i : ℕ)
    → i < n
    → total w n f ≡ total_except w n f i + w (f i)
total-split w n f i lt = omega (arith, total-le w n f i lt)

pub total-update_split {ℓ} :
    {A : Type ℓ} (w : A → ℕ) (n : ℕ) (f : ℕ → A) (i : ℕ) (new : A)
    → i < n
    → total w n (update f i new) ≡ total_except w n f i + w new
total-update_split w n f i new lt = omega (arith, total-le w n f i lt, total-update w n f i new lt)

pub total-le_size {ℓ} :
    {A : Type ℓ} (w : A → ℕ) → ((a : A) → w a ≤ 1) → (n : ℕ) (f : ℕ → A) → total w n f ≤ n
unfolding total
total-le_size w small zero f = omega arith
total-le_size w small (suc n) f = omega (arith, total-le_size w small n f, small (f n))

pub total-le_times {ℓ} :
    {A : Type ℓ} (w : A → ℕ) (c : ℕ)
    → ((a : A) → w a ≤ c)
    → (n : ℕ) (f : ℕ → A) → total w n f ≤ n * c
unfolding total
total-le_times w c small zero f = omega arith
total-le_times w c small (suc n) f =
    omega (arith, total-le_times w c small n f, small (f n), suc-mul n c)

pub total-lt_size {ℓ} :
    {A : Type ℓ} (w : A → ℕ)
    → ((a : A) → w a ≤ 1)
    → (n : ℕ) (f : ℕ → A) (i : ℕ) → i < n
    → w (f i) ≡ 0
    → total w n f < n
unfolding total
total-lt_size w small zero f i lt none_here = absurd (omega arith)
total-lt_size w small (suc n) f i lt none_here = elim (ℕ_discrete i n) [
  | yes last ↦ ground (arith, total-le_size w small n f, ap (λ k. w (f k)) last)
  | no below ↦ omega (arith, total-lt_size w small n f i (omega arith) none_here, small (f n))
]

pub total-eq-zero_below {ℓ} :
    {A : Type ℓ} (w : A → ℕ) (n : ℕ) (f : ℕ → A) → ((i : ℕ) → i < n → w (f i) ≡ 0) → total w n f ≡ 0
unfolding total
total-eq-zero_below w zero f h = refl
total-eq-zero_below w (suc n) f h =
    omega (arith, total-eq-zero_below w n f (λ i lt. h i (omega arith)), h n (omega arith))
