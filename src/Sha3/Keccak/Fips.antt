-- ===== src/Sha3/Keccak/Fips.antt =====
-- An independent description of the permutation: FIPS 202, section 3.2, on lanes A[x, y].
use Prim.Native.Nat.{bit_and, bit_or, bit_xor}
use cpputils.Base.{
  ℕ, zero, suc, ◌+◌, ◌*◌, ◌/◌, ◌%◌, ◌^◌, ◌-◌, List, [], ◌∷◌, ◌==◌, ltb, ◌&&◌, if◌then◌else◌,
}
use cpputils.Sha3.Keccak.{at}

-- A lane turned by `k` bits towards the high end: the low 64 - k bits go up, the high `k` bits come
-- down.
abbrev pub rotation : ℕ → ℕ → ℕ
rotation x k = bit_or (x % 2 ^ (64 - k) * 2 ^ k) (x / 2 ^ (64 - k))

-- A lane with each of its 64 bits flipped.
abbrev pub complement : ℕ → ℕ
complement x = 0xFFFF_FFFF_FFFF_FFFF - x

abbrev pub lane : List ℕ → ℕ → ℕ → ℕ
lane s x y = at s (x % 5 + 5 * (y % 5))

row : (ℕ → ℕ → ℕ) → ℕ → List ℕ → List ℕ
row f y rest = f 0 y ∷ f 1 y ∷ f 2 y ∷ f 3 y ∷ f 4 y ∷ rest

abbrev pub of_lanes : (ℕ → ℕ → ℕ) → List ℕ
unfolding row
of_lanes f = row f 0 (row f 1 (row f 2 (row f 3 (row f 4 []))))

-- The step mappings, for any functions that turn and complement a lane.
unfoldable pub theta_by : (ℕ → ℕ) → List ℕ → List ℕ
unfolding row
theta_by turn s =
    let column = λ (x : ℕ).
      bit_xor (bit_xor (bit_xor (bit_xor (lane s x 0) (lane s x 1)) (lane s x 2)) (lane s x 3))
        (lane s x 4) in
    of_lanes (λ x y. bit_xor (lane s x y) (bit_xor (column (x + 4)) (turn (column (x + 1)))))

unfoldable pub theta : List ℕ → List ℕ
unfolding theta_by
theta s = theta_by (λ x. rotation x 1) s

-- The rotation of lane [x, y]: the number of the step at which the walk from [1, 0] by
-- [x, y] ↦ [y, 2x + 3y] comes there gives it; the walk never comes to [0, 0].
offset_on : ℕ → ℕ → ℕ → ℕ → ℕ → ℕ → ℕ
offset_on zero t px py x y = 0
offset_on (suc steps) t px py x y =
    let later = offset_on steps (t + 1) py ((2 * px + 3 * py) % 5) x y in
    if (px == x) && (py == y) then (t + 1) * (t + 2) / 2 % 64 else later

unfoldable pub offset : ℕ → ℕ → ℕ
unfolding offset_on
offset x y = offset_on 24 0 1 0 x y

unfoldable pub rho_pi_by : (ℕ → ℕ → ℕ) → List ℕ → List ℕ
unfolding row offset
rho_pi_by turn s = of_lanes (λ x y.
    let px = (x + 3 * y) % 5 in
    if offset px x == 0 then lane s px x else turn (lane s px x) (offset px x))

unfoldable pub rho_pi : List ℕ → List ℕ
unfolding rho_pi_by
rho_pi s = rho_pi_by rotation s

unfoldable pub chi_by : (ℕ → ℕ) → List ℕ → List ℕ
unfolding row
chi_by flip s =
    of_lanes (λ x y. bit_xor (lane s x y) (bit_and (flip (lane s (x + 1) y)) (lane s (x + 2) y)))

unfoldable pub chi : List ℕ → List ℕ
unfolding chi_by
chi s = chi_by complement s

-- The register of the round constants after `t` steps; bit 0 is the output.
lfsr : ℕ → ℕ
lfsr zero = 1
lfsr (suc t) = let r = 2 * lfsr t in if ltb r 256 then r else bit_xor r 0x171

unfoldable pub round_constant : ℕ → ℕ
unfolding lfsr
round_constant round =
    let rc = λ (j : ℕ). lfsr (7 * round + j) % 2 * 2 ^ (2 ^ j - 1) in
    rc 0 + rc 1 + rc 2 + rc 3 + rc 4 + rc 5 + rc 6

unfoldable pub iota : ℕ → List ℕ → List ℕ
unfolding row round_constant
iota round s = of_lanes (λ x y.
    if (x == 0) && (y == 0) then bit_xor (lane s x y) (round_constant round) else lane s x y)

unfoldable pub round_of : ℕ → List ℕ → List ℕ
unfolding theta rho_pi chi iota
round_of round s = iota round (chi (rho_pi (theta s)))

unfoldable pub rounds : ℕ → ℕ → List ℕ → List ℕ
rounds zero round s = s
rounds (suc n) round s = rounds n (round + 1) (round_of round s)

-- KECCAK-f[1600]
unfoldable pub keccak_f : List ℕ → List ℕ
unfolding rounds round_of
keccak_f s = rounds 24 0 s
