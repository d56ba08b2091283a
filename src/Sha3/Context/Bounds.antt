-- ===== src/Sha3/Context/Bounds.antt =====
-- Indices stay in their arrays, and what the digest's bytes are.
use Prim.Native.Nat.{bit_xor}
use cpputils.Base.{
  ℕ, suc, set, ◌-◌, ◌*◌, ◌/◌, ◌%◌, ◌≤◌, ◌<◌, ◌≡◌, refl, ◌∙◌, List, [], ◌∷◌, arith, length, take,
  All, All-append, All-take, length-set, length-append, length-take, u64_mod,
}
use cpputils.Sha3.Keccak.{at}
use cpputils.Sha3.Keccak.Equivalence.{length-keccakf}
use cpputils.Sha3.Sponge.{from_bytes}
use cpputils.Sha3.Context.{
  Context, save_byte, absorb, absorb_saved, update, finalize, word_bytes, all_bytes, get_hash,
  get_64bit_hash, sponge_words,
}
use cpputils.Sha3.Context.Bytes.{
  feed, feed_all, IsReady, IsByte, update-eq-feed_all, feed_all-IsReady,
}

-- `wordIndex` stays below the rate, and there are 25 words.
pub record IsInRange (c : Context) : Type 0 where
  pub words : length c.s ≡ sponge_words
  pub index : c.word_index < sponge_words - c.capacity_words

absorb-IsInRange : (t : ℕ) (c : Context) → IsInRange c → IsInRange (absorb t c)
unfolding absorb
absorb-IsInRange t c v = ground (
  arith,
  length-set c.s c.word_index (bit_xor (at c.s c.word_index) t),
  length-keccakf (set c.s c.word_index (bit_xor (at c.s c.word_index) t)),
)

pub feed-IsInRange : (b : ℕ) (c : Context) → IsInRange c → IsInRange (feed b c)
unfolding feed absorb_saved save_byte
feed-IsInRange b c v =
    let c' = save_byte b c in
    ground (
      arith,
      absorb-IsInRange c'.saved (record c' { byte_index = 0; saved = 0 })
          (record { words = v.words; index = v.index }),
    )

pub feed_all-IsInRange : (bs : List ℕ) (c : Context) → IsInRange c → IsInRange (feed_all bs c)
unfolding feed_all
feed_all-IsInRange [] c v = v
feed_all-IsInRange (b ∷ bs) c v = feed_all-IsInRange bs (feed b c) (feed-IsInRange b c v)

-- Updates keep the indices in their arrays: `byteIndex` below 8, `wordIndex` below the rate; and
-- when no word is begun no bytes are saved.
pub update-IsInRange :
    (bs : List ℕ) (c : Context)
    → IsReady c
    → All IsByte bs
    → IsInRange c
    → IsReady (update bs c) × IsInRange (update bs c)
update-IsInRange bs c v bytes r =
    rw (update-eq-feed_all bs c v bytes) (feed_all-IsReady bs c v, feed_all-IsInRange bs c r)

word_bytes_lem :
    (w : ℕ)
    → (length (word_bytes w) ≡ 8)
      × All IsByte (word_bytes w)
      × (from_bytes (word_bytes w) ≡ w % u64_mod)
unfolding word_bytes
word_bytes_lem w = (refl, omega arith, omega arith)

length-all_bytes : (ws : List ℕ) → length (all_bytes ws) ≡ 8 * length ws
unfolding all_bytes
length-all_bytes [] = refl
length-all_bytes (w ∷ ws) =
    omega (
      arith,
      length-append (word_bytes w) (all_bytes ws),
      (word_bytes_lem w).0,
      length-all_bytes ws,
    )

all_bytes-IsByte : (ws : List ℕ) → All IsByte (all_bytes ws)
unfolding all_bytes
all_bytes-IsByte [] = tt
all_bytes-IsByte (w ∷ ws) =
    All-append IsByte (word_bytes w) (all_bytes ws) (word_bytes_lem w).1 (all_bytes-IsByte ws)

length_final : (c : Context) → IsInRange c → length (finalize c).0.s ≡ 25
unfolding finalize
length_final c v = length-keccakf _ (length-set _ _ _ ∙ length-set _ _ _ ∙ v.words)

-- The digest of an `NBits` hasher is `NBits / 8` bytes long, each below 256, for all widths up to
-- 1600 bits.
pub get_hash_lem :
    (bits : ℕ) (c : Context)
    → IsInRange c
    → bits ≤ 1600
    → (length (get_hash bits c) ≡ bits / 8) × All IsByte (get_hash bits c)
unfolding get_hash finalize
get_hash_lem bits c v le =
    let final = (finalize c).0.s in
    (
      length-take (bits / 8) (all_bytes final)
          (omega (arith, length-all_bytes final, length_final c v)),
      All-take IsByte (bits / 8) (all_bytes final) (all_bytes-IsByte final),
    )

first_word :
    (n : ℕ) (ws : List ℕ)
    → 8 ≤ n
    → 0 < length ws
    → from_bytes (take 8 (take n (all_bytes ws))) ≡ at ws 0 % u64_mod
unfolding all_bytes word_bytes
first_word (suc (suc (suc (suc (suc (suc (suc (suc n)))))))) (w ∷ ws) le pos_length =
    (word_bytes_lem w).2
first_word n [] le pos_length = absurd (omega arith)
first_word _ (w ∷ ws) le pos_length = absurd (omega arith)

-- The 64-bit hash is the first word of the final state, where `memory_cast` reads eight bytes of
-- memory with the lowest first, for hashes of at least 64 bits.
pub get_64bit_hash_lem :
    (memory_cast : List ℕ → ℕ) (bits : ℕ) (c : Context)
    → ((bs : List ℕ) → 8 ≤ length bs → memory_cast bs ≡ from_bytes (take 8 bs))
    → IsInRange c
    → 64 ≤ bits
    → bits ≤ 1600
    → get_64bit_hash memory_cast bits c ≡ at (finalize c).0.s 0 % u64_mod
unfolding get_64bit_hash finalize
get_64bit_hash_lem memory_cast bits c reads v ge le =
    reads (get_hash bits c) (omega (arith, (get_hash_lem bits c v le).0))
    ∙ first_word (bits / 8) (finalize c).0.s (omega arith) (omega (arith, length_final c v))
