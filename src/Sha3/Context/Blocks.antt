-- ===== src/Sha3/Context/Blocks.antt =====
-- Feeding whole blocks absorbs them as the standard describes.
use native.Mathlib.Nat.{suc-mul}
use cpputils.Base.{
  ℕ, zero, suc, ◌+◌, ◌-◌, ◌*◌, ◌^◌, ◌≤◌, ◌<◌, ◌≡◌, refl, sym, ◌∙◌, ap, ap₂, List, [], ◌∷◌, arith,
  length, take, drop, All, All-take, All-drop, length-take, length-take-drop,
}
use cpputils.Sha3.Bits.{xor-zero}
use cpputils.Sha3.Keccak.{xor_at, keccakf}
use cpputils.Sha3.Keccak.Equivalence.{keccakf-eq-keccak_f, length-keccakf}
use cpputils.Sha3.Sponge.{from_bytes, xor_block, absorb_blocks}
use cpputils.Sha3.Context.{Context, word_of}
use cpputils.Sha3.Context.Bytes.{feed_all, feed_word, feed_all-take-drop, AtWord, IsByte}
use cpputils.Sha3.Context.Places.{or_byte, absorb_end, absorb_more}

word_of-from_bytes :
    (bs : List ℕ) → All IsByte bs → 8 ≤ length bs → word_of bs ≡ from_bytes (take 8 bs)
unfolding word_of
word_of-from_bytes (b0 ∷ b1 ∷ b2 ∷ b3 ∷ b4 ∷ b5 ∷ b6 ∷ b7 ∷ bs) bytes le =
    let (l0, (l1, (l2, (l3, (l4, (l5, (l6, (l7, _)))))))) = bytes in
    let s1 : ℕ = b0 + b1 * 2 ^ 8 in
    let s2 : ℕ = s1 + b2 * 2 ^ 16 in
    let s3 : ℕ = s2 + b3 * 2 ^ 24 in
    let s4 : ℕ = s3 + b4 * 2 ^ 32 in
    let s5 : ℕ = s4 + b5 * 2 ^ 40 in
    let s6 : ℕ = s5 + b6 * 2 ^ 48 in
    rw
      (
        or_byte b0 b1 1 l1 (omega arith) l0,
        or_byte s1 b2 2 l2 (omega arith) (omega arith),
        or_byte s2 b3 3 l3 (omega arith) (omega arith),
        or_byte s3 b4 4 l4 (omega arith) (omega arith),
        or_byte s4 b5 5 l5 (omega arith) (omega arith),
        or_byte s5 b6 6 l6 (omega arith) (omega arith),
        or_byte s6 b7 7 l7 (omega arith) (omega arith),
      )
      (omega arith)
word_of-from_bytes _ bytes le = absurd (omega arith)

-- A block XORed in from word `i` on.
xor_from : ℕ → List ℕ → List ℕ → List ℕ
xor_from zero s bs = xor_block s bs
xor_from (suc i) [] bs = []
xor_from (suc i) (w ∷ s) bs = w ∷ xor_from i s bs

xor_block-nil : (s : List ℕ) → xor_block s [] ≡ s
unfolding xor_block
xor_block-nil [] = refl
xor_block-nil (w ∷ s) = ap₂ ◌∷◌ (xor-zero w) (xor_block-nil s)

xor_from-nil : (i : ℕ) (s : List ℕ) → xor_from i s [] ≡ s
unfolding xor_from
xor_from-nil zero s = xor_block-nil s
xor_from-nil (suc i) [] = refl
xor_from-nil (suc i) (w ∷ s) = ap (◌∷◌ w) (xor_from-nil i s)

-- One word more.
xor_from-xor_at :
    (i : ℕ) (s bs : List ℕ)
    → xor_from (suc i) (xor_at s i (from_bytes (take 8 bs))) (drop 8 bs) ≡ xor_from i s bs
unfolding xor_from xor_block
xor_from-xor_at zero [] bs = refl
xor_from-xor_at (suc i) [] bs = refl
xor_from-xor_at zero (w ∷ s) bs = refl
xor_from-xor_at (suc i) (w ∷ s) bs = ap (◌∷◌ w) (xor_from-xor_at i s bs)

length-xor_block : (s bs : List ℕ) → length (xor_block s bs) ≡ length s
unfolding xor_block
length-xor_block [] bs = refl
length-xor_block (w ∷ s) bs = ap suc (length-xor_block s (drop 8 bs))

nil_of : (bs : List ℕ) → length bs ≡ 0 → bs ≡ []
nil_of [] h = refl
nil_of (b ∷ bs) h = absurd (omega arith)

last_word :
    (i : ℕ) (s bs : List ℕ)
    → All IsByte bs
    → 8 ≤ length bs
    → drop 8 bs ≡ []
    → xor_at s i (word_of bs) ≡ xor_from i s bs
last_word i s bs bytes le e =
    let s' = xor_at s i (from_bytes (take 8 bs)) in
    ap (xor_at s i) (word_of-from_bytes bs bytes le)
    ∙ sym (xor_from-nil (suc i) s')
    ∙ ap (xor_from (suc i) s') (sym e)
    ∙ xor_from-xor_at i s bs

next_word :
    (i : ℕ) (s bs : List ℕ)
    → All IsByte bs
    → 8 ≤ length bs
    → xor_from (i + 1) (xor_at s i (word_of bs)) (drop 8 bs) ≡ xor_from i s bs
next_word i s bs bytes le =
    let e : i + 1 ≡ suc i = omega arith in
    rw (e, word_of-from_bytes bs bytes le) (xor_from-xor_at i s bs)

-- The words of a block from the current one on.
block_fed :
    (n : ℕ) (bs : List ℕ) (c : Context)
    → AtWord c
    → All IsByte bs
    → c.word_index + suc n + c.capacity_words ≡ 25
    → length bs ≡ 8 * suc n
    → feed_all bs c ≡ record c { s = keccakf (xor_from c.word_index c.s bs); word_index = 0 }
unfolding feed_all
block_fed zero bs c h bytes room l =
    let none_left : drop 8 bs ≡ [] =
      nil_of (drop 8 bs) (omega (arith, length-take-drop 8 bs, length-take 8 bs (omega arith))) in
    feed_word bs c h bytes (omega arith)
    ∙ rw none_left (absorb_end (word_of bs) c (omega arith))
    ∙ ap (λ s. record c { s = keccakf s; word_index = 0 })
        (last_word c.word_index c.s bs bytes (omega arith) none_left)
block_fed (suc n) bs c h bytes room l =
    let w = word_of bs in
    let rest = drop 8 bs in
    let next : Context = record c {
      s = xor_at c.s c.word_index w;
      word_index = c.word_index + 1;
    } in
    feed_word bs c h bytes (omega arith)
    ∙ ap (feed_all rest) (absorb_more w c (omega arith))
    ∙ block_fed n rest next h (All-drop IsByte 8 bs bytes) (omega arith)
        (omega (arith, length-take-drop 8 bs, length-take 8 bs (omega arith)))
    ∙ ap (λ s. record c { s = keccakf s; word_index = 0 })
        (next_word c.word_index c.s bs bytes (omega arith))

-- `n` blocks, from the start of a block.
pub blocks_fed :
    (n rate : ℕ) (bs : List ℕ) (c : Context)
    → AtWord c
    → All IsByte bs
    → c.word_index ≡ 0
    → length c.s ≡ 25
    → rate + 8 * c.capacity_words ≡ 200
    → 0 < rate
    → length bs ≡ n * rate
    → (feed_all bs c).s ≡ absorb_blocks rate n bs c.s
unfolding feed_all absorb_blocks xor_from
blocks_fed zero rate bs c h bytes start full room pos l = rw (nil_of bs (omega (arith, l))) refl
blocks_fed (suc n) rate bs c h bytes start full room pos l =
    let words : List ℕ = xor_block c.s (take rate bs) in
    let next : Context = record c { s = keccakf words; word_index = 0 } in
    let le : rate ≤ length bs = omega (arith, suc-mul n rate) in
    let first : feed_all (take rate bs) c ≡ next =
      block_fed (24 - c.capacity_words) (take rate bs) c h (All-take IsByte rate bs bytes)
        (omega arith) (omega (arith, length-take rate bs le))
      ∙ rw start refl in
    ap (λ c₁. c₁.s) (feed_all-take-drop rate bs c)
    ∙ ap (λ c₁. (feed_all (drop rate bs) c₁).s) first
    ∙ blocks_fed n rate (drop rate bs) next h (All-drop IsByte rate bs bytes) refl
        (length-keccakf words (length-xor_block c.s (take rate bs) ∙ full)) room pos
        (omega (arith, suc-mul n rate, length-take-drop rate bs, length-take rate bs le))
    ∙ ap (absorb_blocks rate n (drop rate bs))
        (keccakf-eq-keccak_f words (length-xor_block c.s (take rate bs) ∙ full))
