-- ===== src/Sha3/Context.antt =====
-- `sha3_context` and the functions of hash/sha3.c on it. A byte is a number below 256, a buffer a
-- list of bytes; the union of `s` and `sb` is read as on a little-endian machine, where writing the
-- bytes of `sb` as `sha3_Finalize` does leaves `s` as it was.
pub mod Bytes
pub mod Bounds
pub mod Places
pub mod Position
pub mod Padding
pub mod Blocks
pub mod Digest
use Prim.Native.Nat.{bit_or, bit_xor}
use cpputils.Base.{
  ℕ, zero, suc, ◌+◌, ◌-◌, ◌*◌, ◌/◌, ◌%◌, ◌^◌, ◌≤◌, ◌<◌, ◌≡◌, List, [], ◌∷◌, ◌++◌, Bool, leb, ltb,
  ◌==◌, if◌then◌else◌, length, take, drop, replicate, u32_mod, u64_mod, add32,
}
use cpputils.Sha3.Keccak.{shl64, shr64, xor_at, at, keccakf}

pub record Context : Type 0 where
  pub saved : ℕ
  pub s : List ℕ
  pub byte_index : ℕ
  pub word_index : ℕ
  pub capacity_words : ℕ

-- `SHA3_KECCAK_SPONGE_WORDS`
abbrev pub sponge_words : ℕ
sponge_words = 1600 / 8 / 8

-- `sha3_Init256`, `sha3_Init384` and `sha3_Init512`
abbrev pub init : ℕ → Context
init bits = record {
  saved = 0;
  s = replicate sponge_words 0;
  byte_index = 0;
  word_index = 0;
  capacity_words = 2 * bits / (8 * 8);
}

-- `saved |= (uint64_t)(*(buf++)) << ((byteIndex++) * 8)`
unfoldable pub save_byte : ℕ → Context → Context
save_byte b c = record c {
  saved = bit_or c.saved (shl64 b (c.byte_index * 8));
  byte_index = add32 c.byte_index 1;
}

-- The `while` loops that save bytes.
unfoldable pub save_bytes : List ℕ → Context → Context
save_bytes [] c = c
save_bytes (b ∷ bs) c = save_bytes bs (save_byte b c)

-- `s[wordIndex] ^= t; if (++wordIndex == ...) { keccakf(s); wordIndex = 0; }`
unfoldable pub absorb : ℕ → Context → Context
absorb t c =
    let s' = xor_at c.s c.word_index t in
    let next = add32 c.word_index 1 in
    if next == sponge_words - c.capacity_words
    then record c { s = keccakf s'; word_index = 0 }
    else record c { s = s'; word_index = next }

-- The end of a word that was begun earlier.
unfoldable pub absorb_saved : Context → Context
absorb_saved c = absorb c.saved (record c { byte_index = 0; saved = 0 })

-- Eight bytes of the input, the lowest first.
unfoldable pub word_of : List ℕ → ℕ
word_of (b0 ∷ b1 ∷ b2 ∷ b3 ∷ b4 ∷ b5 ∷ b6 ∷ b7 ∷ _) =
    bit_or
      (bit_or
        (bit_or
          (bit_or
            (bit_or (bit_or (bit_or b0 (shl64 b1 (8 * 1))) (shl64 b2 (8 * 2))) (shl64 b3 (8 * 3)))
            (shl64 b4 (8 * 4)))
          (shl64 b5 (8 * 5)))
        (shl64 b6 (8 * 6)))
      (shl64 b7 (8 * 7))
word_of _ = 0

-- The loop over full words, and the loop over the bytes that are left.
unfoldable pub absorb_words : ℕ → List ℕ → Context → Context
absorb_words zero bs c = save_bytes bs c
absorb_words (suc words) bs c = absorb_words words (drop 8 bs) (absorb (word_of bs) c)

-- `(8 - byteIndex) & 7` on `unsigned`
abbrev pub old_tail : Context → ℕ
old_tail c = (8 + u32_mod - c.byte_index) % u32_mod % 8

unfoldable pub update : List ℕ → Context → Context
update bs c =
    if ltb (length bs) (old_tail c)
    then save_bytes bs c
    else (let rest = drop (old_tail c) bs in
        let filled =
          if old_tail c == 0 then c else absorb_saved (save_bytes (take (old_tail c) bs) c) in
        absorb_words (length rest / 8) rest filled)

-- The low and the high half of a word, byte by byte.
unfoldable pub word_bytes : ℕ → List ℕ
word_bytes w =
    let t1 = w % u32_mod in
    let t2 = shr64 (shr64 w 16) 16 % u32_mod in
    t1 % 256
    ∷ t1 / 2 ^ 8 % 256
    ∷ t1 / 2 ^ 16 % 256
    ∷ t1 / 2 ^ 24 % 256
    ∷ t2 % 256
    ∷ t2 / 2 ^ 8 % 256
    ∷ t2 / 2 ^ 16 % 256
    ∷ t2 / 2 ^ 24 % 256
    ∷ []

-- `sb`
unfoldable pub all_bytes : List ℕ → List ℕ
all_bytes [] = []
all_bytes (w ∷ ws) = word_bytes w ++ all_bytes ws

-- `sha3_Finalize`: the context and the bytes that the returned pointer leads to.
unfoldable pub finalize : Context → Context × List ℕ
finalize c =
    let padded = xor_at c.s c.word_index (bit_xor c.saved (shl64 0x06 (c.byte_index * 8))) in
    let last = xor_at padded (sponge_words - c.capacity_words - 1) 0x8000_0000_0000_0000 in
    let s' = keccakf last in (record c { s = s' }, all_bytes s')

-- `Sha3_Hasher<NBits>` over a whole input: `update` skips an empty one; `getHash` copies the first
-- `NBits / 8` bytes.
unfoldable pub hasher_update : List ℕ → Context → Context
hasher_update [] c = c
hasher_update (b ∷ bs) c = update (b ∷ bs) c

unfoldable pub get_hash : ℕ → Context → List ℕ
get_hash bits c = take (bits / 8) (finalize c).1

-- `memory_cast` reads a `uint64_t` from the memory at a pointer.
unfoldable pub get_64bit_hash : (List ℕ → ℕ) → ℕ → Context → ℕ
unfolding get_hash
get_64bit_hash memory_cast bits c = memory_cast (get_hash bits c)

unfoldable pub sha3_64bit : (List ℕ → ℕ) → List ℕ → ℕ
unfolding hasher_update get_64bit_hash
sha3_64bit memory_cast bs = get_64bit_hash memory_cast 256 (hasher_update bs (init 256))
