-- ===== src/Sha3.antt =====
-- hash/sha3.c, hash/sha3.h and hash/sha3_hasher.hpp.
pub mod Bits
pub mod Keccak
pub mod Sponge
pub mod Context
