-- ===== src/Sha3/Context/Padding.antt =====
-- `sha3_Finalize` has the effect of feeding the padding of the standard to the context.
use Prim.Native.Nat.{bit_or, bit_xor}
use mathlib.Core.Path.{subst}
use cpputils.Base.{
  ℕ, zero, suc, ◌+◌, ◌-◌, ◌*◌, ◌%◌, ◌^◌, ◌<◌, ◌≡◌, refl, sym, ◌∙◌, ap, List, [], ◌∷◌, arith, dec_lt,
}
use cpputils.Sha3.Bits.{xor_assoc, xor-zero, xor_disjoint}
use cpputils.Sha3.Keccak.{shl64, xor_at, keccakf}
use cpputils.Sha3.Sponge.{pad}
use cpputils.Sha3.Context.{Context, save_byte, absorb_saved, finalize, sponge_words}
use cpputils.Sha3.Context.Places.{
  IsOpen, or_byte, xor_byte, save_byte-IsOpen, absorb_saved-IsOpen, absorb_end, absorb_more,
}
use cpputils.Sha3.Context.Bytes.{feed, feed_all, feed_partial, feed_full}

pub xor_at-xor_at : (s : List ℕ) (i a b : ℕ) → xor_at (xor_at s i a) i b ≡ xor_at s i (bit_xor a b)
xor_at-xor_at [] i a b = refl
xor_at-xor_at (w ∷ s) zero a b = ap (λ x. x ∷ s) (xor_assoc w a b)
xor_at-xor_at (w ∷ s) (suc i) a b = ap (◌∷◌ w) (xor_at-xor_at s i a b)

pub xor_at-zero : (s : List ℕ) (i : ℕ) → xor_at s i 0 ≡ s
xor_at-zero [] i = refl
xor_at-zero (w ∷ s) zero = ap (λ x. x ∷ s) (xor-zero w)
xor_at-zero (w ∷ s) (suc i) = ap (◌∷◌ w) (xor_at-zero s i)

-- What `sha3_Finalize` makes of the state, with `d` for the byte 0x06.
closed : ℕ → Context → List ℕ
closed d c = keccakf (
    xor_at (xor_at c.s c.word_index (bit_xor c.saved (shl64 d (c.byte_index * 8))))
      (sponge_words - c.capacity_words - 1) 0x8000_0000_0000_0000)

sum_word :
    (x d k : ℕ)
    → k ≡ 7
    → d < 128
    → x < 2 ^ (k * 8)
    → x + (d + 128) * 2 ^ (k * 8) ≡ bit_xor (x + d * 2 ^ (k * 8)) 0x8000_0000_0000_0000
sum_word x d k e lt low =
    let low' : x < 2 ^ 56 = subst (λ i. x < 2 ^ (i * 8)) e low in
    rw e (omega (arith, xor_disjoint 63 (x + d * 2 ^ 56) 1 (omega arith)))

-- The last byte of the padding.
pad_last :
    (d : ℕ) (c : Context)
    → IsOpen c
    → d < 128
    → c.byte_index ≡ 7
    → c.word_index + 1 + c.capacity_words ≡ 25
    → (feed (d + 128) c).s ≡ closed d c
unfolding closed absorb_saved save_byte
pad_last d c v lt at_last last =
    let index : sponge_words - c.capacity_words - 1 ≡ c.word_index = omega arith in
    let final : ℕ = 0x8000_0000_0000_0000 in
    let word : bit_or c.saved (shl64 (d + 128) (c.byte_index * 8))
        ≡ bit_xor (bit_xor c.saved (shl64 d (c.byte_index * 8))) final =
      rw
        (
          or_byte c.saved (d + 128) c.byte_index (omega arith) v.partial v.low,
          xor_byte c.saved d c.byte_index (omega arith) v.partial v.low,
        )
        (sum_word c.saved d c.byte_index at_last lt v.low) in
    ap (λ c₁. c₁.s) (feed_full (d + 128) c at_last)
    ∙ ap (λ c₁. c₁.s) (absorb_end _ _ last)
    ∙ rw (index, word) (ap keccakf (sym (xor_at-xor_at c.s c.word_index _ final)))

shl64-nothing : (k : ℕ) → shl64 0 k ≡ 0
shl64-nothing k = omega arith

closed-save_byte :
    (d : ℕ) (c : Context) → IsOpen c → d < 128 → closed 0 (save_byte d c) ≡ closed d c
unfolding closed save_byte
closed-save_byte d c v lt =
    rw
      (
        shl64-nothing ((c.byte_index + 1) % 0x1_0000_0000 * 8),
        xor-zero (bit_or c.saved (shl64 d (c.byte_index * 8))),
        or_byte c.saved d c.byte_index (omega arith) v.partial v.low,
        xor_byte c.saved d c.byte_index (omega arith) v.partial v.low,
      )
      refl

closed-absorb_saved :
    (d : ℕ) (c : Context)
    → IsOpen c
    → d < 128
    → c.word_index + 1 + c.capacity_words < 25
    → closed 0 (absorb_saved (save_byte d c)) ≡ closed d c
unfolding closed absorb_saved save_byte
closed-absorb_saved d c v lt more =
    rw
      (
        absorb_more (bit_or c.saved (shl64 d (c.byte_index * 8)))
            (record c { saved = 0; byte_index = 0 }) more,
        or_byte c.saved d c.byte_index (omega arith) v.partial v.low,
        xor_byte c.saved d c.byte_index (omega arith) v.partial v.low,
        xor_at-zero (xor_at c.s c.word_index (c.saved + d * 2 ^ (c.byte_index * 8)))
            (c.word_index + 1),
      )
      refl

next_place :
    (d : ℕ) (c : Context)
    → c.word_index + 1 + c.capacity_words < 25
    → let next = absorb_saved (save_byte d c) in
      (next.byte_index ≡ 0)
      × (next.word_index ≡ c.word_index + 1)
      × (next.capacity_words ≡ c.capacity_words)
unfolding absorb_saved save_byte
next_place d c more =
    rw
      (absorb_more (bit_or c.saved (shl64 d (c.byte_index * 8)))
        (record c { saved = 0; byte_index = 0 }) more)
      (refl, refl, refl)

saved_place :
    (d : ℕ) (c : Context)
    → c.byte_index < 8
    → let next = save_byte d c in
      (next.byte_index ≡ c.byte_index + 1)
      × (next.word_index ≡ c.word_index)
      × (next.capacity_words ≡ c.capacity_words)
unfolding save_byte
saved_place d c lt = (omega arith, refl, refl)

-- Feeding the `q` bytes of padding that the block lacks, with `d` for 0x06.
pad-closed :
    (q d : ℕ) (c : Context)
    → IsOpen c
    → d < 128
    → c.word_index + c.capacity_words < 25
    → suc q + c.byte_index + 8 * c.word_index + 8 * c.capacity_words ≡ 200
    → (feed_all (pad d (suc q)) c).s ≡ closed d c
unfolding feed_all
pad-closed zero d c v lt index left =
    pad_last d c v lt (omega (arith, v.partial)) (omega (arith, v.partial))
pad-closed (suc q) d c v lt index left = elim (dec_lt c.byte_index 7) [
  | yes more ↦
      let place = saved_place d c v.partial in
      ap (λ c₁. (feed_all (pad 0 (suc q)) c₁).s) (feed_partial d c (omega arith))
      ∙ pad-closed q 0 (save_byte d c) (save_byte-IsOpen d c (omega arith) v more) (omega arith)
          (omega (arith, place.1, place.2)) (omega (arith, place.0, place.1, place.2))
      ∙ closed-save_byte d c v lt
  | no last ↦
      let more : c.word_index + 1 + c.capacity_words < 25 = omega (arith, v.partial) in
      let place = next_place d c more in
      ap (λ c₁. (feed_all (pad 0 (suc q)) c₁).s) (feed_full d c (omega (arith, v.partial)))
      ∙ pad-closed q 0 (absorb_saved (save_byte d c)) (absorb_saved-IsOpen (save_byte d c))
          (omega arith) (omega (arith, place.1, place.2))
          (omega (arith, v.partial, place.0, place.1, place.2))
      ∙ closed-absorb_saved d c v lt more
]

-- The state that `sha3_Finalize` leaves is the one after the padding, as many bytes as the block
-- lacks.
pub finalize-pad :
    (q : ℕ) (c : Context)
    → IsOpen c
    → c.word_index + c.capacity_words < 25
    → q + c.byte_index + 8 * c.word_index + 8 * c.capacity_words ≡ 200
    → (finalize c).0.s ≡ (feed_all (pad 6 q) c).s
unfolding finalize closed
finalize-pad zero c v index left = absurd (omega (arith, v.partial))
finalize-pad (suc q) c v index left = sym (pad-closed q 6 c v (omega arith) index left)
