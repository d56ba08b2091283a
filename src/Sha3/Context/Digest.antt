-- ===== src/Sha3/Context/Digest.antt =====
-- The digest of a whole message against the standard's description.
use native.Mathlib.Nat.{mod-lt, mul_comm, suc-mul, mul-div_cancel, div-add-mod}
use cpputils.Base.{
  ℕ, zero, suc, ◌+◌, ◌-◌, ◌*◌, ◌/◌, ◌%◌, ◌≤◌, ◌<◌, ◌≡◌, refl, sym, ◌∙◌, ap, ap₂, List, [], ◌∷◌,
  ◌++◌, arith, length, take, All, All-append, length-append, ◌⊎◌, inl, inr,
}
use cpputils.Sha3.Sponge.{sha3, pad, absorb_blocks, to_bytes, state_bytes, from_bytes}
use cpputils.Sha3.Context.{
  Context, finalize, init, hasher_update, get_hash, all_bytes, word_bytes, get_64bit_hash,
  sha3_64bit,
}
use cpputils.Sha3.Context.Bytes.{
  feed_all, feed_all-append, update-eq-feed_all, IsByte, IsReady, AtWord,
}
use cpputils.Sha3.Context.Bounds.{IsInRange, get_hash_lem, feed_all-IsInRange}
use cpputils.Sha3.Context.Padding.{finalize-pad}
use cpputils.Sha3.Context.Places.{IsOpen, feed_all-IsOpen}
use cpputils.Sha3.Context.Position.{place, capacity-feed_all, place-feed_all}
use cpputils.Sha3.Context.Blocks.{blocks_fed}

pad-IsByte : (q d : ℕ) → d < 128 → All IsByte (pad d q)
pad-IsByte zero d lt = tt
pad-IsByte (suc zero) d lt = (omega arith, tt)
pad-IsByte (suc (suc q)) d lt = (omega arith, pad-IsByte (suc q) 0 (omega arith))

length-pad : (q d : ℕ) → length (pad d q) ≡ q
length-pad zero d = refl
length-pad (suc zero) d = refl
length-pad (suc (suc q)) d = ap suc (length-pad (suc q) 0)

hasher_update-eq-feed_all :
    (bs : List ℕ) (c : Context) → IsReady c → All IsByte bs → hasher_update bs c ≡ feed_all bs c
unfolding hasher_update feed_all
hasher_update-eq-feed_all [] c v bytes = refl
hasher_update-eq-feed_all (b ∷ bs) c v bytes = update-eq-feed_all (b ∷ bs) c v bytes

word_bytes-eq-to_bytes : (w : ℕ) → word_bytes w ≡ to_bytes 8 w
unfolding word_bytes
word_bytes-eq-to_bytes w = ap₂ ◌∷◌ (omega arith) (
    ap₂ ◌∷◌ (omega arith) (
      ap₂ ◌∷◌ (omega arith) (
        ap₂ ◌∷◌ (omega arith) (
          ap₂ ◌∷◌ (omega arith)
            (ap₂ ◌∷◌ (omega arith) (ap₂ ◌∷◌ (omega arith) (ap₂ ◌∷◌ (omega arith) refl)))))))

all_bytes-eq-state_bytes : (ws : List ℕ) → all_bytes ws ≡ state_bytes ws
unfolding all_bytes state_bytes
all_bytes-eq-state_bytes [] = refl
all_bytes-eq-state_bytes (w ∷ ws) =
    ap₂ ◌++◌ (word_bytes-eq-to_bytes w) (all_bytes-eq-state_bytes ws)

-- The padding fills the last block.
whole_blocks :
    (rate : ℕ) (message : List ℕ)
    → 0 < rate
    → let padded = message ++ pad 6 (rate - length message % rate) in
      length padded ≡ length padded / rate * rate
whole_blocks rate message pos =
    let q : ℕ = rate - length message % rate in
    let k : ℕ = length message / rate in
    let total : length (message ++ pad 6 q) ≡ suc k * rate =
      length-append message (pad 6 q)
      ∙ omega (
        arith,
        length-pad q 6,
        div-add-mod (length message) rate,
        mod-lt (length message) pos,
        suc-mul k rate,
        mul_comm rate k,
      ) in
    total ∙ ap (λ n. n * rate) (sym (ap (λ n. n / rate) total ∙ mul-div_cancel (suc k) pos))

-- The state after `sha3_Finalize` on a message, where a block has `rate` bytes.
finalize-absorb_blocks :
    (rate : ℕ) (message : List ℕ) (c : Context)
    → IsOpen c
    → AtWord c
    → c.word_index ≡ 0
    → IsInRange c
    → All IsByte message
    → rate + 8 * c.capacity_words ≡ 200
    → let padded = message ++ pad 6 (rate - length message % rate) in
      (finalize (feed_all message c)).0.s ≡ absorb_blocks rate (length padded / rate) padded c.s
finalize-absorb_blocks rate message c v h start r bytes room =
    let q : ℕ = rate - length message % rate in
    let read = feed_all message c in
    let padded = message ++ pad 6 q in
    let pos : 0 < rate = omega (arith, r.index) in
    let same = capacity-feed_all message c in
    let begun : place c + length message ≡ length message = omega (arith, h.0) in
    let position : place read ≡ length message % rate =
      place-feed_all rate message c v bytes r room ∙ ap (λ n. n % rate) begun in
    finalize-pad q read (feed_all-IsOpen message c bytes v)
      (omega (arith, (feed_all-IsInRange message c r).index))
      (omega (arith, position, same, mod-lt (length message) pos))
    ∙ ap (λ c₁. c₁.s) (sym (feed_all-append message (pad 6 q) c))
    ∙ blocks_fed (length padded / rate) rate padded c h
        (All-append IsByte message (pad 6 q) bytes (pad-IsByte q 6 (omega arith))) start r.words
        room pos (whole_blocks rate message pos)

-- The digest, where `bits` leaves a rate of whole words.
digest :
    (bits : ℕ) (message : List ℕ)
    → All IsByte message
    → 8 * (init bits).capacity_words < 200
    → (1600 - 2 * bits) / 8 + 8 * (init bits).capacity_words ≡ 200
    → get_hash bits (hasher_update message (init bits)) ≡ sha3 bits message
unfolding get_hash finalize sha3
digest bits message bytes some_rate room =
    let ready : IsReady (init bits) = record { partial = omega arith; clean = λ _. refl } in
    let open_ : IsOpen (init bits) = record { partial = omega arith; low = omega arith } in
    let in_range : IsInRange (init bits) = record { words = refl; index = omega arith } in
    ap (λ c. take (bits / 8) (all_bytes (finalize c).0.s))
      (hasher_update-eq-feed_all message (init bits) ready bytes)
    ∙ ap (take (bits / 8)) (
        all_bytes-eq-state_bytes _
        ∙ ap state_bytes (
            finalize-absorb_blocks ((1600 - 2 * bits) / 8) message (init bits) open_ (refl, refl)
              refl in_range bytes room))

-- The widths that `Sha3_Hasher` allows.
abbrev pub IsWidth : ℕ → Type 0
IsWidth bits = (bits ≡ 256) ⊎ (bits ≡ 384) ⊎ (bits ≡ 512)

-- The digest of a message of bytes is the one of the standard: SHA3-256, SHA3-384 and SHA3-512.
pub get_hash-eq-sha3 :
    (bits : ℕ) (message : List ℕ)
    → IsWidth bits
    → All IsByte message
    → get_hash bits (hasher_update message (init bits)) ≡ sha3 bits message
get_hash-eq-sha3 bits message (inl e) bytes = digest bits message bytes (omega arith) (omega arith)
get_hash-eq-sha3 bits message (inr (inl e)) bytes =
    digest bits message bytes (omega arith) (omega arith)
get_hash-eq-sha3 bits message (inr (inr e)) bytes =
    digest bits message bytes (omega arith) (omega arith)

-- The 64-bit hash of a message is the first eight bytes of its SHA3-256 digest, where `memory_cast`
-- reads eight bytes of memory with the lowest first.
pub sha3_64bit-eq-sha3 :
    (memory_cast : List ℕ → ℕ) (message : List ℕ)
    → ((bs : List ℕ) → 8 ≤ length bs → memory_cast bs ≡ from_bytes (take 8 bs))
    → All IsByte message
    → sha3_64bit memory_cast message ≡ from_bytes (take 8 (sha3 256 message))
unfolding sha3_64bit get_64bit_hash
sha3_64bit-eq-sha3 memory_cast message reads bytes =
    let digest : get_hash 256 (hasher_update message (init 256)) ≡ sha3 256 message =
      get_hash-eq-sha3 256 message (inl refl) bytes in
    let ready : IsReady (init 256) = record { partial = omega arith; clean = λ _. refl } in
    let in_range : IsInRange (hasher_update message (init 256)) =
      rw (hasher_update-eq-feed_all message (init 256) ready bytes)
        (feed_all-IsInRange message (init 256) (record { words = refl; index = omega arith })) in
    reads (get_hash 256 (hasher_update message (init 256)))
      (omega (arith, (get_hash_lem 256 _ in_range (omega arith)).0))
    ∙ ap (λ bs. from_bytes (take 8 bs)) digest
