-- ===== src/Sha3/Context/Places.antt =====
-- The bytes saved for a word, each in its place.
use Prim.Native.Nat.{bit_or, bit_xor}
use native.Mathlib.Nat.{mul-le-mul_right}
use cpputils.Base.{
  ℕ, ◌+◌, ◌*◌, ◌%◌, ◌^◌, ◌≤◌, ◌<◌, ◌≡◌, refl, List, [], ◌∷◌, arith, ◌==◌, ==_iff, leb, holds_up_to,
  holds_up_to_lem, true, dec_lt, All,
}
use cpputils.Sha3.Bits.{xor_disjoint, or_disjoint}
use cpputils.Sha3.Keccak.{shl64, xor_at, keccakf}
use cpputils.Sha3.Context.{Context, save_byte, absorb, absorb_saved}
use cpputils.Sha3.Context.Bytes.{feed, feed_all, feed_partial, feed_full, IsByte}

-- Where the bytes saved so far leave room in the word: the word's high bytes are still zero.
pub record IsOpen (c : Context) : Type 0 where
  pub partial : c.byte_index < 8
  pub low : c.saved < 2 ^ (c.byte_index * 8)

next_power : (k : ℕ) → k < 8 → 2 ^ ((k + 1) * 8) ≡ 256 * 2 ^ (k * 8)
unfolding holds_up_to
next_power k lt =
    (==_iff _ _).0 (holds_up_to_lem (λ i. 2 ^ ((i + 1) * 8) == 256 * 2 ^ (i * 8)) 8 refl lt)

small_power : (k : ℕ) → k < 8 → 2 ^ (k * 8) ≤ 2 ^ 56
unfolding holds_up_to
small_power k lt =
    let test : leb (2 ^ (k * 8)) (2 ^ 56) ≡ true =
      holds_up_to_lem (λ i. leb (2 ^ (i * 8)) (2 ^ 56)) 8 refl lt in
    ground arith

-- A byte's place in a word.
shl64_byte : (d k : ℕ) → d < 256 → k < 8 → shl64 d (k * 8) ≡ d * 2 ^ (k * 8)
shl64_byte d k lt lt' =
    omega (arith, small_power k lt', mul-le-mul_right {m = d} {n = 255} (2 ^ (k * 8)) (omega arith))

pub or_byte :
    (x d k : ℕ)
    → d < 256
    → k < 8
    → x < 2 ^ (k * 8)
    → bit_or x (shl64 d (k * 8)) ≡ x + d * 2 ^ (k * 8)
or_byte x d k lt lt' low = rw (shl64_byte d k lt lt') (or_disjoint (k * 8) x d low)

pub xor_byte :
    (x d k : ℕ)
    → d < 256
    → k < 8
    → x < 2 ^ (k * 8)
    → bit_xor x (shl64 d (k * 8)) ≡ x + d * 2 ^ (k * 8)
xor_byte x d k lt lt' low = rw (shl64_byte d k lt lt') (xor_disjoint (k * 8) x d low)

pub save_byte-IsOpen :
    (b : ℕ) (c : Context) → IsByte b → IsOpen c → c.byte_index < 7 → IsOpen (save_byte b c)
unfolding save_byte
save_byte-IsOpen b c lt v more = record {
  partial = omega arith;
  low =
      let index : (c.byte_index + 1) % 0x1_0000_0000 ≡ c.byte_index + 1 = omega arith in
      rw (index, or_byte c.saved b c.byte_index lt v.partial v.low)
        (omega (
          arith,
          next_power c.byte_index v.partial,
          v.low,
          mul-le-mul_right {m = b} {n = 255} (2 ^ (c.byte_index * 8)) (omega arith),
        ));
}

pub absorb_saved-IsOpen : (c : Context) → IsOpen (absorb_saved c)
unfolding absorb_saved absorb
absorb_saved-IsOpen c = record { partial = ground arith; low = ground arith }

pub feed-IsOpen : (b : ℕ) (c : Context) → IsByte b → IsOpen c → IsOpen (feed b c)
feed-IsOpen b c lt v = elim (dec_lt c.byte_index 7) [
  | yes more ↦ rw (feed_partial b c (omega arith)) (save_byte-IsOpen b c lt v more)
  | no last ↦ rw (feed_full b c (omega (arith, v.partial))) (absorb_saved-IsOpen (save_byte b c))
]

pub feed_all-IsOpen :
    (bs : List ℕ) (c : Context) → All IsByte bs → IsOpen c → IsOpen (feed_all bs c)
unfolding feed_all
feed_all-IsOpen [] c bytes v = v
feed_all-IsOpen (b ∷ bs) c bytes v =
    feed_all-IsOpen bs (feed b c) bytes.1 (feed-IsOpen b c bytes.0 v)

pub absorb_end :
    (t : ℕ) (c : Context)
    → c.word_index + 1 + c.capacity_words ≡ 25
    → absorb t c ≡ record c { s = keccakf (xor_at c.s c.word_index t); word_index = 0 }
unfolding absorb
absorb_end t c last = ground arith

pub absorb_more :
    (t : ℕ) (c : Context)
    → c.word_index + 1 + c.capacity_words < 25
    → absorb t c ≡ record c { s = xor_at c.s c.word_index t; word_index = c.word_index + 1 }
unfolding absorb
absorb_more t c more = ground arith
