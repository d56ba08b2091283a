-- ===== src/Memory.antt =====
-- utility_functions/memory_functions.cpp: `memfind`. A byte range is a list of bytes, a pointer into
-- the haystack an offset from its start.
pub mod Search
use cpputils.Base.{
  ℕ, zero, suc, ◌+◌, ◌-◌, List, [], ◌∷◌, Option, none, some, Bool, true, false, ◌==◌, ltb, ◌&&◌,
  ◌||◌, if◌then◌else◌, length, drop, get_or,
}

-- C's `memchr`, as an offset.
unfoldable pub memchr : List ℕ → ℕ → ℕ → Option ℕ
memchr xs c zero = none
memchr [] c (suc n) = none
memchr (x ∷ xs) c (suc n) =
    let later = memchr xs c n in
    if x == c then some 0 else elim later [ none ↦ none | some k ↦ some (suc k) ]

-- C's `memcmp(...) == 0`
unfoldable pub memcmp_eq : List ℕ → List ℕ → ℕ → Bool
memcmp_eq xs ys zero = true
memcmp_eq (x ∷ xs) (y ∷ ys) (suc n) = x == y && memcmp_eq xs ys n
memcmp_eq _ _ (suc n) = false

-- The loop, with `fuel` rounds left; `search_end` rounds are enough.
unfoldable pub search : ℕ → List ℕ → List ℕ → ℕ → ℕ → Option ℕ
unfolding memchr memcmp_eq
search zero haystack needle search_end match_at = none
search (suc fuel) haystack needle search_end match_at = elim (ltb match_at search_end) [
  | false ↦ none
  | true ↦ elim (memchr (drop match_at haystack) (get_or needle 0 0) (search_end - match_at)) [
    | none ↦ none
    | some k ↦
        let m = match_at + k in
        let next_round = search fuel haystack needle search_end (m + 1) in
        if length needle == 1
          || memcmp_eq (drop (m + 1) haystack) (drop 1 needle) (length needle - 1)
        then some m
        else next_round
  ]
]

unfoldable pub memfind : List ℕ → List ℕ → Option ℕ
unfolding search
memfind haystack needle =
    if length needle == 0 || length haystack == 0 || ltb (length haystack) (length needle)
    then none
    else (let search_end = length haystack - length needle + 1 in
        search search_end haystack needle search_end 0)
