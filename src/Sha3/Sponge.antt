-- ===== src/Sha3/Sponge.antt =====
-- An independent description of the hash: FIPS 202, sections 4 and 6.1 and appendix B, on a message
-- of whole bytes.
use Prim.Native.Nat.{bit_xor}
use cpputils.Base.{
  ℕ, zero, suc, ◌+◌, ◌-◌, ◌*◌, ◌/◌, ◌%◌, List, [], ◌∷◌, ◌++◌, length, take, drop, replicate,
}
use cpputils.Sha3.Keccak.Fips.{keccak_f}

-- A number from its bytes and a number's first bytes, the lowest first.
abbrev pub from_bytes : List ℕ → ℕ
from_bytes [] = 0
from_bytes (b ∷ bs) = b + 256 * from_bytes bs

abbrev pub to_bytes : ℕ → ℕ → List ℕ
to_bytes zero w = []
to_bytes (suc n) w = w % 256 ∷ to_bytes n (w / 256)

-- The bits 01, pad10*1 and the zeros between in `n` bytes: `d` is 0x06 in the first byte, and the
-- last byte has the final bit.
abbrev pub pad : ℕ → ℕ → List ℕ
pad d zero = []
pad d (suc zero) = (d + 0x80) ∷ []
pad d (suc (suc n)) = d ∷ pad 0 (suc n)

-- The state with a block XORed in, the block's bytes followed by zeros.
unfoldable pub xor_block : List ℕ → List ℕ → List ℕ
xor_block [] bs = []
xor_block (w ∷ ws) bs = bit_xor w (from_bytes (take 8 bs)) ∷ xor_block ws (drop 8 bs)

-- The first `n` blocks of `rate` bytes.
unfoldable pub absorb_blocks : ℕ → ℕ → List ℕ → List ℕ → List ℕ
absorb_blocks rate zero bs s = s
absorb_blocks rate (suc n) bs s =
    absorb_blocks rate n (drop rate bs) (keccak_f (xor_block s (take rate bs)))

unfoldable pub state_bytes : List ℕ → List ℕ
state_bytes [] = []
state_bytes (w ∷ ws) = to_bytes 8 w ++ state_bytes ws

-- SHA3-`bits`: the capacity is twice the digest's width.
unfoldable pub sha3 : ℕ → List ℕ → List ℕ
unfolding absorb_blocks xor_block state_bytes
sha3 bits message =
    let rate = (1600 - 2 * bits) / 8 in
    let padded = message ++ pad 0x06 (rate - length message % rate) in
    take (bits / 8)
      (state_bytes (absorb_blocks rate (length padded / rate) padded (replicate 25 0)))
