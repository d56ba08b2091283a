-- ===== src/Sha3/Context/Position.antt =====
-- How far a block has been read, after each byte of the input.
use native.Mathlib.Nat.{mod-eq_of_lt, mod-add-mod, mul-mod_right}
use cpputils.Base.{
  ℕ, ◌+◌, ◌*◌, ◌%◌, ◌<◌, ◌≡◌, refl, sym, ◌∙◌, ap, List, [], ◌∷◌, arith, length, All, dec_lt, ◌⊎◌,
  inl, inr,
}
use cpputils.Sha3.Context.{Context, absorb, absorb_saved, save_byte}
use cpputils.Sha3.Context.Bytes.{feed, feed_all, feed_partial, feed_full, IsByte}
use cpputils.Sha3.Context.Bounds.{IsInRange, feed-IsInRange}
use cpputils.Sha3.Context.Places.{IsOpen, feed-IsOpen, absorb_end, absorb_more}

-- The number of the block's bytes read.
abbrev pub place : Context → ℕ
place c = c.byte_index + 8 * c.word_index

capacity-feed : (b : ℕ) (c : Context) → (feed b c).capacity_words ≡ c.capacity_words
unfolding feed absorb_saved absorb save_byte
capacity-feed b c = ground arith

pub capacity-feed_all :
    (bs : List ℕ) (c : Context) → (feed_all bs c).capacity_words ≡ c.capacity_words
unfolding feed_all
capacity-feed_all [] c = refl
capacity-feed_all (b ∷ bs) c = capacity-feed_all bs (feed b c) ∙ capacity-feed b c

-- One byte more, or the end of the block.
place_next :
    (b : ℕ) (c : Context)
    → IsOpen c
    → c.word_index + c.capacity_words < 25
    → (place (feed b c) ≡ place c + 1) × (place c + 1 + 8 * c.capacity_words < 200)
      ⊎ (place (feed b c) ≡ 0) × (place c + 1 + 8 * c.capacity_words ≡ 200)
unfolding feed absorb_saved save_byte
place_next b c v index = elim (dec_lt c.byte_index 7) [
  | yes more ↦ inl (rw (feed_partial b c (omega arith)) (omega arith), omega arith)
  | no last ↦
      let full = feed_full b c (omega (arith, v.partial)) in
      elim (dec_lt (c.word_index + 1 + c.capacity_words) 25) [
        | yes room ↦ inl (
          ap place (full ∙ absorb_more _ _ room) ∙ omega (arith, v.partial),
          omega (arith, v.partial),
        )
        | no done ↦ inr (
          ap place (full ∙ absorb_end _ _ (omega arith)) ∙ omega (arith, v.partial),
          omega (arith, v.partial),
        )
      ]
]

place-feed :
    (rate b : ℕ) (c : Context)
    → IsOpen c
    → c.word_index + c.capacity_words < 25
    → rate + 8 * c.capacity_words ≡ 200
    → place (feed b c) ≡ (place c + 1) % rate
place-feed rate b c v index room = elim (place_next b c v index) [
  | inl (e, lt) ↦ e ∙ sym (mod-eq_of_lt (omega arith))
  | inr (e, full) ↦
      let whole : place c + 1 ≡ rate * 1 = omega arith in
      e ∙ sym (ap (λ n. n % rate) whole ∙ mul-mod_right rate 1)
]

pub place-feed_all :
    (rate : ℕ) (bs : List ℕ) (c : Context)
    → IsOpen c
    → All IsByte bs
    → IsInRange c
    → rate + 8 * c.capacity_words ≡ 200
    → place (feed_all bs c) ≡ (place c + length bs) % rate
unfolding feed_all
place-feed_all rate [] c v bytes r room =
    sym (mod-eq_of_lt (omega (arith, v.partial, r.index))) ∙ ap (λ n. n % rate) (omega arith)
place-feed_all rate (b ∷ bs) c v bytes r room =
    place-feed_all rate bs (feed b c) (feed-IsOpen b c bytes.0 v) bytes.1 (feed-IsInRange b c r)
      (omega (arith, capacity-feed b c))
    ∙ ap (λ n. (n + length bs) % rate) (place-feed rate b c v (omega (arith, r.index)) room)
    ∙ mod-add-mod (place c + 1) rate (length bs)
    ∙ ap (λ n. n % rate) (omega arith)
