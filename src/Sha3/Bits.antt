-- ===== src/Sha3/Bits.antt =====
-- The operators `|` and `^` on words, digit by digit: laws that the functions of hash/sha3.c need.
use Prim.Native.Nat.{bit_or, bit_or-bitwise, bit_xor, bit_xor-bitwise, bitwise, digits, differ}
use mathlib.Core.Path.{subst}
use native.Mathlib.Nat.{
  mul_assoc, pow-suc, mul_comm, div-add-mod, add-mul-mod_self_left, mod-eq_of_lt, mod-lt, mod-one,
}
use cpputils.Base.{
  ℕ, zero, suc, ◌+◌, ◌*◌, ◌/◌, ◌%◌, ◌^◌, ◌≤◌, ◌<◌, ◌≡◌, refl, sym, ◌∙◌, ap, arith, ◌-◌, max, dec_le,
}

digits_enough :
    (z : ℕ → ℕ) (f : ℕ → ℕ → ℕ) (n m a b : ℕ) → a ≤ n → a ≤ m → digits z f n a b ≡ digits z f m a b
digits_enough z f zero zero zero b le le' = refl
digits_enough z f zero (suc m) zero b le le' = refl
digits_enough z f (suc n) zero zero b le le' = refl
digits_enough z f (suc n) (suc m) zero b le le' = refl
digits_enough z f zero m (suc a) b le le' = absurd (omega arith)
digits_enough z f (suc n) zero (suc a) b le le' = absurd (omega arith)
digits_enough z f (suc n) (suc m) (suc a) b le le' =
    ap (λ h. h * 2 + f (suc a % 2) (b % 2))
      (digits_enough z f n m (suc a / 2) (b / 2) (omega arith) (omega arith))

bitwise_step :
    (z : ℕ → ℕ) (f : ℕ → ℕ → ℕ) (a b : ℕ)
    → z b ≡ z (b / 2) * 2 + f 0 (b % 2)
    → bitwise z f a b ≡ bitwise z f (a / 2) (b / 2) * 2 + f (a % 2) (b % 2)
bitwise_step z f zero b e = e
bitwise_step z f (suc a) b e =
    ap (λ h. h * 2 + f (suc a % 2) (b % 2))
      (digits_enough z f a (suc a / 2) (suc a / 2) (b / 2) (omega arith) (omega arith))

-- Exclusive or of two digits, as a number.
differ_lem : (x y : ℕ) → x < 2 → y < 2 → differ x y ≡ (x + y) % 2
differ_lem zero y lx ly = omega arith
differ_lem (suc zero) zero lx ly = refl
differ_lem (suc zero) (suc zero) lx ly = refl
differ_lem (suc (suc x)) y lx ly = absurd (omega arith)
differ_lem (suc zero) (suc (suc y)) lx ly = absurd (omega arith)

xor_step : (a b : ℕ) → bit_xor a b ≡ bit_xor (a / 2) (b / 2) * 2 + (a + b) % 2
xor_step a b =
    let step : bit_xor a b ≡ bitwise (λ x. x) differ (a / 2) (b / 2) * 2 + differ (a % 2) (b % 2) =
      bit_xor-bitwise a b ∙ bitwise_step (λ x. x) differ a b (omega arith) in
    omega (
      arith,
      step,
      bit_xor-bitwise (a / 2) (b / 2),
      differ_lem (a % 2) (b % 2) (omega arith) (omega arith),
    )

or_step : (a b : ℕ) → bit_or a b ≡ bit_or (a / 2) (b / 2) * 2 + max (a % 2) (b % 2)
or_step a b =
    let step : bit_or a b ≡ bitwise (λ x. x) max (a / 2) (b / 2) * 2 + max (a % 2) (b % 2) =
      bit_or-bitwise a b ∙ bitwise_step (λ x. x) max a b (omega arith) in
    omega (arith, step, bit_or-bitwise (a / 2) (b / 2))

half-xor : (a b : ℕ) → bit_xor a b / 2 ≡ bit_xor (a / 2) (b / 2)
half-xor a b = omega (arith, xor_step a b)

all_zero : bit_xor (bit_xor 0 0) 0 ≡ bit_xor 0 (bit_xor 0 0)
all_zero = refl

xor_assoc_below : (n a b c : ℕ) → a + b + c ≤ n → bit_xor (bit_xor a b) c ≡ bit_xor a (bit_xor b c)
xor_assoc_below zero a b c le =
    let (ea, eb, ec) : (a ≡ 0) × (b ≡ 0) × (c ≡ 0) = (omega arith, omega arith, omega arith) in
    rw (ea, eb, ec) all_zero
xor_assoc_below (suc n) a b c le = elim (dec_le (a + b + c) 0) [
  | yes none_left ↦ xor_assoc_below n a b c (omega arith)
  | no more ↦
      let halves : bit_xor (bit_xor a b / 2) (c / 2) ≡ bit_xor (a / 2) (bit_xor b c / 2) =
        rw (half-xor a b, half-xor b c) (xor_assoc_below n (a / 2) (b / 2) (c / 2) (omega arith)) in
      omega (
        arith,
        halves,
        xor_step (bit_xor a b) c,
        xor_step a (bit_xor b c),
        xor_step a b,
        xor_step b c,
      )
]

pub xor_assoc : (a b c : ℕ) → bit_xor (bit_xor a b) c ≡ bit_xor a (bit_xor b c)
xor_assoc a b c = xor_assoc_below (a + b + c) a b c (omega arith)

two_pow_suc : (y k : ℕ) → y * 2 ^ k * 2 ≡ y * 2 ^ suc k
two_pow_suc y k = mul_assoc y (2 ^ k) 2 ∙ ap (◌*◌ y) (sym (pow-suc 2 k))

-- Below the digits of `y` there is room for those of `x`.
pub xor_disjoint : (k x y : ℕ) → x < 2 ^ k → bit_xor x (y * 2 ^ k) ≡ x + y * 2 ^ k
xor_disjoint zero zero y lt = omega (arith, bit_xor-bitwise 0 (y * 1))
xor_disjoint zero (suc x) y lt = absurd (omega arith)
xor_disjoint (suc k) x y lt =
    let half : y * 2 ^ k * 2 / 2 ≡ y * 2 ^ k = omega arith in
    let low : bit_xor (x / 2) (y * 2 ^ k * 2 / 2) ≡ x / 2 + y * 2 ^ k =
      rw half (xor_disjoint k (x / 2) y (omega arith)) in
    subst (λ z. bit_xor x z ≡ x + z) (two_pow_suc y k)
      (omega (arith, xor_step x (y * 2 ^ k * 2), low))

pub or_disjoint : (k x y : ℕ) → x < 2 ^ k → bit_or x (y * 2 ^ k) ≡ x + y * 2 ^ k
or_disjoint zero zero y lt = omega (arith, bit_or-bitwise 0 (y * 1))
or_disjoint zero (suc x) y lt = absurd (omega arith)
or_disjoint (suc k) x y lt =
    let half : y * 2 ^ k * 2 / 2 ≡ y * 2 ^ k = omega arith in
    let low : bit_or (x / 2) (y * 2 ^ k * 2 / 2) ≡ x / 2 + y * 2 ^ k =
      rw half (or_disjoint k (x / 2) y (omega arith)) in
    let digit : max (x % 2) (y * 2 ^ k * 2 % 2) ≡ x % 2 = omega arith in
    subst (λ z. bit_or x z ≡ x + z) (two_pow_suc y k)
      (omega (arith, or_step x (y * 2 ^ k * 2), low, digit))

xor-zero_below : (n a : ℕ) → a ≤ n → bit_xor a 0 ≡ a
xor-zero_below zero zero le = refl
xor-zero_below zero (suc a) le = absurd (omega arith)
xor-zero_below (suc n) a le = omega (arith, xor_step a 0, xor-zero_below n (a / 2) (omega arith))

pub xor-zero : (a : ℕ) → bit_xor a 0 ≡ a
xor-zero a = xor-zero_below a a (omega arith)

double_mod : (a b : ℕ) → 0 < b → a * 2 % (b * 2) ≡ a % b * 2
double_mod a b pos_b =
    let whole : a * 2 ≡ a % b * 2 + b * 2 * (a / b) =
      omega
        (arith, div-add-mod a b, mul_comm b 2, mul_assoc 2 b (a / b), mul_comm 2 (b * (a / b))) in
    ap (λ n. n % (b * 2)) whole
    ∙ add-mul-mod_self_left (a % b * 2) (b * 2) (a / b)
    ∙ mod-eq_of_lt (omega (arith, mod-lt a pos_b))

two_pow_pos : (n : ℕ) → 0 < 2 ^ n
two_pow_pos zero = omega arith
two_pow_pos (suc n) = omega (arith, pow-suc 2 n, two_pow_pos n)

shifted_mod : (n k x : ℕ) → x * 2 ^ k % 2 ^ (n + k) ≡ x % 2 ^ n * 2 ^ k
shifted_mod n zero x =
    let e : n + 0 ≡ n = omega arith in
    let x_once : x * 1 ≡ x = omega arith in
    let once : x % 2 ^ n ≡ x % 2 ^ n * 1 = omega arith in
    ap (λ m. x * 1 % 2 ^ m) e ∙ ap (λ a. a % 2 ^ n) x_once ∙ once
shifted_mod n (suc k) x =
    let more : 2 ^ (n + k) * 2 ≡ 2 ^ (n + suc k) =
      let e : n + suc k ≡ suc (n + k) = omega arith in rw e (sym (pow-suc 2 (n + k))) in
    ap (λ a. a % 2 ^ (n + suc k)) (sym (two_pow_suc x k))
    ∙ ap (λ m. x * 2 ^ k * 2 % m) (sym more)
    ∙ double_mod (x * 2 ^ k) (2 ^ (n + k)) (two_pow_pos (n + k))
    ∙ ap (λ a. a * 2) (shifted_mod n k x)
    ∙ two_pow_suc (x % 2 ^ n) k

shifted_out : (j x : ℕ) → x * 2 ^ (64 + j) % 2 ^ 64 ≡ 0
shifted_out zero x = omega arith
shifted_out (suc j) x =
    let e : 64 + suc j ≡ suc (64 + j) = omega arith in
    rw e (omega (arith, shifted_out j x, two_pow_suc x (64 + j)))

-- What a shift within 64 bits keeps: the low bits.
pub shifted_lem : (k x : ℕ) → x * 2 ^ k % 2 ^ 64 ≡ x % 2 ^ (64 - k) * 2 ^ k
shifted_lem k x = elim (dec_le k 64) [
  | yes le ↦
      let e : 64 - k + k ≡ 64 = omega arith in
      subst (λ n. x * 2 ^ k % 2 ^ n ≡ x % 2 ^ (64 - k) * 2 ^ k) e (shifted_mod (64 - k) k x)
  | no gt ↦
      let e : 64 + (k - 64) ≡ k = omega arith in
      let gone : 64 - k ≡ 0 = omega arith in
      let none_left : x * 2 ^ k % 2 ^ 64 ≡ 0 =
        subst (λ n. x * 2 ^ n % 2 ^ 64 ≡ 0) e (shifted_out (k - 64) x) in
      let same : x % 2 ^ (64 - k) * 2 ^ k ≡ 0 =
        ap (λ n. x % 2 ^ n * 2 ^ k) gone ∙ ap (λ r. r * 2 ^ k) (mod-one x) ∙ omega arith in
      none_left ∙ sym same
]
