-- ===== src/Tests/Bytes.antt =====
-- utility_functions/memory_functions.cpp on small byte ranges.
use cpputils.Base.{ℕ, ◌≡◌, refl, List, [], ◌∷◌, some, none}
use cpputils.Memory.{memfind, search, memchr, memcmp_eq}
use cpputils.Memory.Search.{IsFirst, memfind-IsFirst}

abbrev five_bytes : List ℕ
five_bytes = 1 ∷ 2 ∷ 1 ∷ 3 ∷ 1 ∷ []

memfind_second : memfind five_bytes (1 ∷ 3 ∷ []) ≡ some 2
unfolding memfind search memchr memcmp_eq
memfind_second = refl

memfind_empty : memfind five_bytes [] ≡ none
unfolding memfind
memfind_empty = refl

memfind-IsFirst_example : IsFirst five_bytes (1 ∷ 3 ∷ []) (memfind five_bytes (1 ∷ 3 ∷ []))
memfind-IsFirst_example = memfind-IsFirst five_bytes 1 (3 ∷ [])
