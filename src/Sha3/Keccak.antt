-- ===== src/Sha3/Keccak.antt =====
-- `keccakf`, on 25 words of 64 bits, and its tables.
pub mod Fips
pub mod Equivalence
use Prim.Native.Nat.{bit_and, bit_or, bit_xor}
use cpputils.Base.{ℕ, ◌+◌, ◌-◌, ◌*◌, ◌/◌, ◌%◌, ◌^◌, List, [], ◌∷◌, map, get_or, set, u64_mod}

-- `x << k` and `x >> k` on `uint64_t`.
abbrev pub shl64 : ℕ → ℕ → ℕ
shl64 x k = x * 2 ^ k % u64_mod

abbrev pub shr64 : ℕ → ℕ → ℕ
shr64 x k = x / 2 ^ k

-- `SHA3_ROTL64(x, y)`
abbrev pub rotl64 : ℕ → ℕ → ℕ
rotl64 x y = bit_or (shl64 x y) (shr64 x (64 - y))

-- `~x`
abbrev pub not64 : ℕ → ℕ
not64 x = u64_mod - 1 - x

pub keccakf_rndc : List ℕ
keccakf_rndc =
    0x0000000000000001 ∷ 0x0000000000008082 ∷ 0x800000000000808a ∷ 0x8000000080008000
    ∷ 0x000000000000808b ∷ 0x0000000080000001 ∷ 0x8000000080008081 ∷ 0x8000000000008009
    ∷ 0x000000000000008a ∷ 0x0000000000000088 ∷ 0x0000000080008009 ∷ 0x000000008000000a
    ∷ 0x000000008000808b ∷ 0x800000000000008b ∷ 0x8000000000008089 ∷ 0x8000000000008003
    ∷ 0x8000000000008002 ∷ 0x8000000000000080 ∷ 0x000000000000800a ∷ 0x800000008000000a
    ∷ 0x8000000080008081 ∷ 0x8000000000008080 ∷ 0x0000000080000001 ∷ 0x8000000080008008 ∷ []

pub keccakf_rotc : List ℕ
keccakf_rotc =
    1 ∷ 3 ∷ 6 ∷ 10 ∷ 15 ∷ 21 ∷ 28 ∷ 36 ∷ 45 ∷ 55 ∷ 2 ∷ 14 ∷ 27 ∷ 41 ∷ 56 ∷ 8 ∷ 25 ∷ 43 ∷ 62 ∷ 18
    ∷ 39 ∷ 61 ∷ 20 ∷ 44 ∷ []

pub keccakf_piln : List ℕ
keccakf_piln =
    10 ∷ 7 ∷ 11 ∷ 17 ∷ 18 ∷ 3 ∷ 5 ∷ 16 ∷ 8 ∷ 21 ∷ 24 ∷ 4 ∷ 15 ∷ 23 ∷ 19 ∷ 13 ∷ 12 ∷ 2 ∷ 20 ∷ 14 ∷ 22
    ∷ 9 ∷ 6 ∷ 1 ∷ []

-- `for` over the values that the loop variable takes.
abbrev pub for_each {ℓ} : {S : Type ℓ} → List ℕ → (ℕ → S → S) → S → S
for_each [] body s = s
for_each (i ∷ is) body s = for_each is body (body i s)

abbrev pub from_0_to_4 : List ℕ
from_0_to_4 = 0 ∷ 1 ∷ 2 ∷ 3 ∷ 4 ∷ []

abbrev pub by_fives : List ℕ
by_fives = 0 ∷ 5 ∷ 10 ∷ 15 ∷ 20 ∷ []

abbrev pub from_0_to_23 : List ℕ
from_0_to_23 =
    0 ∷ 1 ∷ 2 ∷ 3 ∷ 4 ∷ 5 ∷ 6 ∷ 7 ∷ 8 ∷ 9 ∷ 10 ∷ 11 ∷ 12 ∷ 13 ∷ 14 ∷ 15 ∷ 16 ∷ 17 ∷ 18 ∷ 19 ∷ 20
    ∷ 21 ∷ 22 ∷ 23 ∷ []

-- `a[i]`; the code reads no array out of its range.
abbrev pub at : List ℕ → ℕ → ℕ
at a i = get_or a i 0

-- `a[i] ^= x`
abbrev pub xor_at : List ℕ → ℕ → ℕ → List ℕ
xor_at a i x = set a i (bit_xor (at a i) x)

unfoldable pub theta : List ℕ → List ℕ
theta s =
    let bc : List ℕ =
      map
        (λ i.
          bit_xor
            (bit_xor (bit_xor (bit_xor (at s i) (at s (i + 5))) (at s (i + 10))) (at s (i + 15)))
            (at s (i + 20)))
        from_0_to_4 in
    for_each from_0_to_4
      (λ i s₁.
        let t = bit_xor (at bc ((i + 4) % 5)) (rotl64 (at bc ((i + 1) % 5)) 1) in
        for_each by_fives (λ j s₂. xor_at s₂ (j + i) t) s₁)
      s

-- The loop carries `t` and the state.
unfoldable pub rho_pi : List ℕ → List ℕ
unfolding keccakf_piln keccakf_rotc
rho_pi s =
    (for_each {S = ℕ × List ℕ} from_0_to_23
      (λ i ts.
        let j = at keccakf_piln i in (at ts.1 j, set ts.1 j (rotl64 ts.0 (at keccakf_rotc i))))
      (at s 1, s)).1

unfoldable pub chi : List ℕ → List ℕ
chi s =
    for_each by_fives
      (λ j s₁.
        let bc : List ℕ = map (λ i. at s₁ (j + i)) from_0_to_4 in
        for_each from_0_to_4
          (λ i s₂. xor_at s₂ (j + i) (bit_and (not64 (at bc ((i + 1) % 5))) (at bc ((i + 2) % 5))))
          s₁)
      s

unfoldable pub iota : ℕ → List ℕ → List ℕ
unfolding keccakf_rndc
iota round s = xor_at s 0 (at keccakf_rndc round)

pub keccak_round : ℕ → List ℕ → List ℕ
unfolding theta rho_pi chi iota
keccak_round round s = iota round (chi (rho_pi (theta s)))

unfoldable pub keccakf : List ℕ → List ℕ
unfolding keccak_round
keccakf s = for_each from_0_to_23 keccak_round s
