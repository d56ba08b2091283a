-- ===== src/Tests/Hashes.antt =====
-- hash/sha3.c and hash/sha3_hasher.hpp on short inputs.
use cpputils.Base.{ℕ, ◌≡◌, refl, sym, ◌∙◌, List, [], ◌∷◌, arith, take, replicate, All, inl}
use cpputils.Sha3.Keccak.{keccakf, theta, rho_pi, chi, iota}
use cpputils.Sha3.Keccak.Fips.{keccak_f}
use cpputils.Sha3.Keccak.Equivalence.{keccakf-eq-keccak_f}
use cpputils.Sha3.Sponge.{from_bytes, sha3}
use cpputils.Sha3.Context.{
  init, get_hash, hasher_update, finalize, update, absorb_words, save_bytes, save_byte,
  absorb_saved, absorb, word_of, all_bytes, word_bytes,
}
use cpputils.Sha3.Context.Bytes.{IsReady, IsByte}
use cpputils.Sha3.Context.Digest.{get_hash-eq-sha3}
use cpputils.Sha3.Context.Bounds.{IsInRange}

abbrev abc : List ℕ
abc = 0x61 ∷ 0x62 ∷ 0x63 ∷ []

abc-IsByte : All IsByte abc
abc-IsByte = ground arith

init-IsReady : IsReady (init 256)
init-IsReady = record { partial = omega arith; clean = λ _. refl }

init-IsInRange : IsInRange (init 256)
init-IsInRange = record { words = refl; index = omega arith }

keccakf-eq-keccak_f_example : keccakf (replicate 25 0) ≡ keccak_f (replicate 25 0)
keccakf-eq-keccak_f_example = keccakf-eq-keccak_f (replicate 25 0) refl

get_hash-eq-sha3_example : get_hash 256 (hasher_update abc (init 256)) ≡ sha3 256 abc
get_hash-eq-sha3_example = get_hash-eq-sha3 256 abc (inl refl) abc-IsByte

-- The published SHA3-256 digest of "abc".
abbrev abc_digest : List ℕ
abc_digest =
    0x3a ∷ 0x98 ∷ 0x5d ∷ 0xa7 ∷ 0x4f ∷ 0xe2 ∷ 0x25 ∷ 0xb2 ∷ 0x04 ∷ 0x5c ∷ 0x17 ∷ 0x2d ∷ 0x6b ∷ 0xd3
    ∷ 0x90 ∷ 0xbd ∷ 0x85 ∷ 0x5f ∷ 0x08 ∷ 0x6e ∷ 0x3e ∷ 0x9d ∷ 0x52 ∷ 0x5b ∷ 0x46 ∷ 0xbf ∷ 0xe2
    ∷ 0x45 ∷ 0x11 ∷ 0x43 ∷ 0x15 ∷ 0x32 ∷ []

code-abc : get_hash 256 (hasher_update abc (init 256)) ≡ abc_digest
unfolding get_hash hasher_update finalize update absorb_words save_bytes save_byte absorb_saved
    absorb word_of all_bytes word_bytes keccakf theta rho_pi chi iota
code-abc = refl

standard-abc : sha3 256 abc ≡ abc_digest
standard-abc = sym get_hash-eq-sha3_example ∙ code-abc

abbrev low_first : List ℕ → ℕ
low_first bs = from_bytes (take 8 bs)
