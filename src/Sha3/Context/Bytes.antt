-- ===== src/Sha3/Context/Bytes.antt =====
-- `sha3_Update` reads its input byte by byte, however the input is cut up.
use Prim.Native.Nat.{bit_or, bit_or-bitwise}
use mathlib.Core.Path.{subst}
use cpputils.Base.{
  ℕ, zero, suc, ◌+◌, ◌*◌, ◌/◌, ◌%◌, ◌≤◌, ◌<◌, ◌≡◌, refl, sym, ◌∙◌, ap, List, [], ◌∷◌, ◌++◌, ◌==◌,
  if◌then◌else◌, arith, length, take, drop, All, All-append, All-drop, dec_lt, false, inl, inr,
  Bool-cases, ltb, u64_mod, take-drop, length-take, length-take-drop,
}
use cpputils.Sha3.Keccak.{shl64}
use cpputils.Sha3.Context.{
  Context, save_byte, save_bytes, absorb, absorb_saved, word_of, absorb_words, update, old_tail,
}

-- The reference: one byte at a time.
unfoldable pub feed : ℕ → Context → Context
feed b c = let c' = save_byte b c in if c'.byte_index == 8 then absorb_saved c' else c'

unfoldable pub feed_all : List ℕ → Context → Context
feed_all [] c = c
feed_all (b ∷ bs) c = feed_all bs (feed b c)

-- No word is begun, or some of a word's bytes are saved.
pub record IsReady (c : Context) : Type 0 where
  pub partial : c.byte_index < 8
  pub clean : c.byte_index ≡ 0 → c.saved ≡ 0

abbrev pub IsByte : ℕ → Type 0
IsByte b = b < 256

pub feed_all-append :
    (xs ys : List ℕ) (c : Context) → feed_all (xs ++ ys) c ≡ feed_all ys (feed_all xs c)
unfolding feed_all
feed_all-append [] ys c = refl
feed_all-append (x ∷ xs) ys c = feed_all-append xs ys (feed x c)

pub feed_partial : (b : ℕ) (c : Context) → c.byte_index + 1 < 8 → feed b c ≡ save_byte b c
unfolding feed save_byte
feed_partial b c h = ground arith

pub feed_full : (b : ℕ) (c : Context) → c.byte_index ≡ 7 → feed b c ≡ absorb_saved (save_byte b c)
unfolding feed save_byte
feed_full b c h = ground arith

byte_index-save_byte :
    (b : ℕ) (c : Context) → c.byte_index < 8 → (save_byte b c).byte_index ≡ c.byte_index + 1
unfolding save_byte
byte_index-save_byte b c h = omega arith

-- Bytes that do not fill the word are saved.
feed_all-save_bytes :
    (bs : List ℕ) (c : Context) → c.byte_index + length bs < 8 → feed_all bs c ≡ save_bytes bs c
unfolding feed_all save_bytes
feed_all-save_bytes [] c h = refl
feed_all-save_bytes (b ∷ bs) c h =
    ap (feed_all bs) (feed_partial b c (omega arith))
    ∙ feed_all-save_bytes bs (save_byte b c) (omega (arith, byte_index-save_byte b c (omega arith)))

-- Bytes that fill the word exactly are saved, and the word is absorbed.
feed_all-absorb_saved :
    (bs : List ℕ) (c : Context)
    → c.byte_index < 8
    → c.byte_index + length bs ≡ 8
    → feed_all bs c ≡ absorb_saved (save_bytes bs c)
unfolding feed_all save_bytes
feed_all-absorb_saved [] c lt h = absurd (omega arith)
feed_all-absorb_saved (b ∷ []) c lt h = feed_full b c (omega arith)
feed_all-absorb_saved (b ∷ b' ∷ bs) c lt h =
    ap (feed_all (b' ∷ bs)) (feed_partial b c (omega arith))
    ∙ feed_all-absorb_saved (b' ∷ bs) (save_byte b c) (omega (arith, byte_index-save_byte b c lt))
        (omega (arith, byte_index-save_byte b c lt))

-- No word is begun.
abbrev pub AtWord : Context → Type 0
AtWord c = (c.byte_index ≡ 0) × (c.saved ≡ 0)

pub absorb-AtWord : (t : ℕ) (c : Context) → AtWord c → AtWord (absorb t c)
unfolding absorb
absorb-AtWord t c h = ground arith

absorb_saved-AtWord : (c : Context) → AtWord (absorb_saved c)
unfolding absorb_saved
absorb_saved-AtWord c = absorb-AtWord c.saved (record c { byte_index = 0; saved = 0 }) (refl, refl)

first_byte : (b : ℕ) → b < 256 → bit_or 0 (b * 1 % u64_mod) ≡ b
first_byte b h = simp bit_or-bitwise (omega arith)

abbrev blank : Context → Context
blank c = record c { byte_index = 0; saved = 0 }

word_saved_blank :
    (c : Context) (b0 b1 b2 b3 b4 b5 b6 b7 : ℕ) (rest : List ℕ)
    → b0 < 256
    → let first = b0 ∷ b1 ∷ b2 ∷ b3 ∷ b4 ∷ b5 ∷ b6 ∷ b7 ∷ [] in
      absorb_saved (save_bytes first (blank c)) ≡ absorb (word_of (first ++ rest)) (blank c)
unfolding absorb_saved save_bytes save_byte word_of
word_saved_blank c b0 b1 b2 b3 b4 b5 b6 b7 rest lt =
    ap
      (λ b.
        absorb
          (bit_or
            (bit_or
              (bit_or
                (bit_or (bit_or (bit_or (bit_or b (shl64 b1 8)) (shl64 b2 16)) (shl64 b3 24))
                  (shl64 b4 32))
                (shl64 b5 40))
              (shl64 b6 48))
            (shl64 b7 56))
          (blank c))
      (first_byte b0 lt)

-- Eight bytes saved one after the other make the word that the loop over full words reads.
word_saved :
    (c : Context) (bs : List ℕ)
    → AtWord c
    → All IsByte bs
    → 8 ≤ length bs
    → absorb_saved (save_bytes (take 8 bs) c) ≡ absorb (word_of bs) c
word_saved c (b0 ∷ b1 ∷ b2 ∷ b3 ∷ b4 ∷ b5 ∷ b6 ∷ b7 ∷ rest) h bytes long =
    let is_blank : blank c ≡ c = ground arith in
    subst
      (λ z.
        absorb_saved (save_bytes (b0 ∷ b1 ∷ b2 ∷ b3 ∷ b4 ∷ b5 ∷ b6 ∷ b7 ∷ []) z)
        ≡ absorb (word_of (b0 ∷ b1 ∷ b2 ∷ b3 ∷ b4 ∷ b5 ∷ b6 ∷ b7 ∷ rest)) z)
      is_blank (word_saved_blank c b0 b1 b2 b3 b4 b5 b6 b7 rest bytes.0)
word_saved c _ h bytes long = absurd (omega arith)

pub feed_all-take-drop :
    (n : ℕ) (bs : List ℕ) (c : Context)
    → feed_all bs c ≡ feed_all (drop n bs) (feed_all (take n bs) c)
feed_all-take-drop n bs c =
    sym (ap (λ l. feed_all l c) (take-drop n bs)) ∙ feed_all-append (take n bs) (drop n bs) c

-- A full word of the input.
pub feed_word :
    (bs : List ℕ) (c : Context)
    → AtWord c
    → All IsByte bs
    → 8 ≤ length bs
    → feed_all bs c ≡ feed_all (drop 8 bs) (absorb (word_of bs) c)
feed_word bs c h bytes le =
    feed_all-take-drop 8 bs c
    ∙ ap (feed_all (drop 8 bs)) (
        feed_all-absorb_saved (take 8 bs) c (omega arith)
          (omega (arith, length-take 8 bs (omega arith)))
        ∙ word_saved c bs h bytes (omega arith))

feed_all-absorb_words :
    (words : ℕ) (bs : List ℕ) (c : Context)
    → AtWord c
    → All IsByte bs
    → 8 * words ≤ length bs
    → length bs < 8 * words + 8
    → feed_all bs c ≡ absorb_words words bs c
unfolding absorb_words
feed_all-absorb_words zero bs c h bytes le lt = feed_all-save_bytes bs c (omega arith)
feed_all-absorb_words (suc words) bs c h bytes le lt =
    feed_word bs c h bytes (omega arith)
    ∙ feed_all-absorb_words words (drop 8 bs) (absorb (word_of bs) c)
        (absorb-AtWord (word_of bs) c h) (All-drop IsByte 8 bs bytes)
        (omega (arith, length-take-drop 8 bs, length-take 8 bs (omega arith)))
        (omega (arith, length-take-drop 8 bs, length-take 8 bs (omega arith)))

-- `sha3_Update` from the end of the word begun, which lacks `k` bytes.
fill :
    (k : ℕ) (bs : List ℕ) (c : Context)
    → IsReady c
    → All IsByte bs
    → k ≤ length bs
    → (c.byte_index + k) % 8 ≡ 0
    → k < 8
    → absorb_words
        (length (drop k bs) / 8)
        (drop k bs)
        (if k == 0 then c else absorb_saved (save_bytes (take k bs) c))
      ≡ feed_all bs c
fill zero bs c v bytes le e lt = sym (
    feed_all-absorb_words (length bs / 8) bs c (omega arith, v.clean (omega arith)) bytes
      (omega arith) (omega arith))
fill (suc k) bs c v bytes le e lt =
    let full = absorb_saved (save_bytes (take (suc k) bs) c) in
    let rest = drop (suc k) bs in
    let not_none : (suc k == 0) ≡ false = ground arith in
    rw not_none (
      sym (
        feed_all-take-drop (suc k) bs c
        ∙ ap (feed_all rest) (
            feed_all-absorb_saved (take (suc k) bs) c (omega (arith, v.partial))
              (omega (arith, v.partial, length-take (suc k) bs le)))
        ∙ feed_all-absorb_words (length rest / 8) rest full (absorb_saved-AtWord _)
            (All-drop IsByte (suc k) bs bytes) (omega arith) (omega arith)))

-- Where no word is left half-read or the saved bytes belong to one, `sha3_Update` has the effect of
-- reading the buffer byte by byte, each word being absorbed when its eighth byte is there.
pub update-eq-feed_all :
    (bs : List ℕ) (c : Context) → IsReady c → All IsByte bs → update bs c ≡ feed_all bs c
unfolding update
update-eq-feed_all bs c v bytes = elim (Bool-cases (ltb (length bs) (old_tail c))) [
  | inl short ↦ rw short (sym (feed_all-save_bytes bs c (ground arith)))
  | inr long ↦
      rw long
        (fill (old_tail c) bs c v bytes (ground arith) (omega (arith, v.partial)) (omega arith))
]

feed-IsReady : (b : ℕ) (c : Context) → IsReady c → IsReady (feed b c)
unfolding feed save_byte
feed-IsReady b c v = elim (dec_lt c.byte_index 7) [
  | yes more ↦
      rw (feed_partial b c (omega arith))
        (record { partial = omega arith; clean = λ e. absurd (omega arith) })
  | no last ↦ rw (feed_full b c (omega (arith, v.partial))) (record {
    partial = omega (arith, (absorb_saved-AtWord (save_byte b c)).0);
    clean = λ _. (absorb_saved-AtWord (save_byte b c)).1;
  })
]

pub feed_all-IsReady : (bs : List ℕ) (c : Context) → IsReady c → IsReady (feed_all bs c)
unfolding feed_all
feed_all-IsReady [] c v = v
feed_all-IsReady (b ∷ bs) c v = feed_all-IsReady bs (feed b c) (feed-IsReady b c v)

-- It makes no difference in how many pieces the input is handed over.
pub update-append :
    (xs ys : List ℕ) (c : Context)
    → IsReady c
    → All IsByte xs
    → All IsByte ys
    → update ys (update xs c) ≡ update (xs ++ ys) c
update-append xs ys c v hx hy =
    ap (update ys) (update-eq-feed_all xs c v hx)
    ∙ update-eq-feed_all ys (feed_all xs c) (feed_all-IsReady xs c v) hy
    ∙ sym (feed_all-append xs ys c)
    ∙ sym (update-eq-feed_all (xs ++ ys) c v (All-append IsByte xs ys hx hy))
