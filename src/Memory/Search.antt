-- ===== src/Memory/Search.antt =====
-- `memfind` finds the first occurrence.
use cpputils.Base.{
  ℕ, zero, suc, ◌+◌, ◌-◌, ◌≤◌, ◌<◌, ◌≡◌, refl, inl, inr, ap, sym, ◌∙◌, List, [], ◌∷◌, Option, none,
  some, Bool, true, false, ◌==◌, ltb, ◌&&◌, ◌||◌, arith, length, drop, starts_with, Option-cases,
  Bool-cases, dec_lt,
}
use cpputils.Memory.{memchr, memcmp_eq, search, memfind}

abbrev pub Occurs : List ℕ → List ℕ → ℕ → Type 0
Occurs haystack needle i = starts_with (drop i haystack) needle ≡ true

-- What an answer has to say: the first offset of an occurrence, or that there is none.
abbrev pub IsFirst : List ℕ → List ℕ → Option ℕ → Type 0
IsFirst haystack needle none = (j : ℕ) → ¬ Occurs haystack needle j
IsFirst haystack needle (some i) =
    Occurs haystack needle i × ((j : ℕ) → j < i → ¬ Occurs haystack needle j)

memcmp_eq-starts_with : (xs cs : List ℕ) → memcmp_eq xs cs (length cs) ≡ starts_with xs cs
unfolding memcmp_eq
memcmp_eq-starts_with xs [] = refl
memcmp_eq-starts_with [] (c ∷ cs) = refl
memcmp_eq-starts_with (x ∷ xs) (c ∷ cs) = ap (λ b. (x == c) && b) (memcmp_eq-starts_with xs cs)

length-starts_with : (xs cs : List ℕ) → starts_with xs cs ≡ true → length cs ≤ length xs
length-starts_with xs [] h = omega arith
length-starts_with [] (c ∷ cs) h = ground arith
length-starts_with (x ∷ xs) (c ∷ cs) h = ground (arith, length-starts_with xs cs)

length-drop : (n : ℕ) (xs : List ℕ) → length (drop n xs) ≡ length xs - n
length-drop zero xs = omega arith
length-drop (suc n) [] = omega arith
length-drop (suc n) (x ∷ xs) = omega (arith, length-drop n xs)

drop-nil : (n : ℕ) → drop {A = ℕ} n [] ≡ []
drop-nil zero = refl
drop-nil (suc n) = refl

drop-drop : (m k : ℕ) (xs : List ℕ) → drop k (drop m xs) ≡ drop (m + k) xs
drop-drop zero k xs = ground arith
drop-drop (suc m) k [] = drop-nil k ∙ sym (drop-nil (suc m + k))
drop-drop (suc m) k (x ∷ xs) =
    let e : suc m + k ≡ suc (m + k) = omega arith in rw e (drop-drop m k xs)

not_before :
    (x : ℕ) (xs : List ℕ) (c k : ℕ)
    → (x == c) ≡ false
    → ((j : ℕ) (cs : List ℕ) → j < k → starts_with (drop j xs) (c ∷ cs) ≡ false)
    → (j : ℕ) (cs : List ℕ) → j < suc k
    → starts_with (drop j (x ∷ xs)) (c ∷ cs) ≡ false
not_before x xs c k ne before zero cs lt = ground arith
not_before x xs c k ne before (suc j) cs lt = before j cs (omega arith)

-- The byte that `memchr` finds is followed by what comes after it.
memchr-some :
    (xs : List ℕ) (c n k : ℕ)
    → memchr xs c n ≡ some k
    → (k < n)
      × (drop k xs ≡ c ∷ drop (suc k) xs)
      × ((j : ℕ) (cs : List ℕ) → j < k → starts_with (drop j xs) (c ∷ cs) ≡ false)
unfolding memchr
memchr-some xs c zero k e = ground arith
memchr-some [] c (suc n) k e = ground arith
memchr-some (x ∷ xs) c (suc n) k e = elim (Bool-cases (x == c)) [
  | inl now ↦ (ground arith, ground arith, λ j cs lt. absurd (ground arith))
  | inr not_now ↦ elim (Option-cases (memchr xs c n)) [
    | inl none_left ↦ absurd (ground arith)
    | inr (k', found) ↦
        let (lt, at, before) = memchr-some xs c n k' found in
        let e' : k ≡ suc k' = ground arith in
        (
          ground arith,
          ground arith,
          λ j cs less. not_before x xs c k' not_now before j cs (ground arith),
        )
  ]
]

memchr-none :
    (xs : List ℕ) (c n : ℕ)
    → memchr xs c n ≡ none
    → (j : ℕ) (cs : List ℕ) → j < n
    → starts_with (drop j xs) (c ∷ cs) ≡ false
unfolding memchr
memchr-none xs c zero e j cs lt = absurd (omega arith)
memchr-none [] c (suc n) e zero cs lt = refl
memchr-none [] c (suc n) e (suc j) cs lt = refl
memchr-none (x ∷ xs) c (suc n) e zero cs lt = ground arith
memchr-none (x ∷ xs) c (suc n) e (suc j) cs lt =
    memchr-none xs c n (ground arith) j cs (omega arith)

-- The test of one round, on the bytes after the one that `memchr` found.
abbrev rest_eq : List ℕ → ℕ → List ℕ → Bool
rest_eq rest c cs = length (c ∷ cs) == 1 || memcmp_eq rest (drop 1 (c ∷ cs)) (length (c ∷ cs) - 1)

rest_eq-starts_with :
    (rest : List ℕ) (c : ℕ) (cs : List ℕ) → rest_eq rest c cs ≡ starts_with rest cs
unfolding memcmp_eq
rest_eq-starts_with rest c [] = refl
rest_eq-starts_with rest c (d ∷ cs) =
    let more : (length (c ∷ d ∷ cs) == 1) ≡ false = ground arith in
    let less : length (c ∷ d ∷ cs) - 1 ≡ length (d ∷ cs) = omega arith in
    ap (λ b. b || memcmp_eq rest (d ∷ cs) (length (c ∷ d ∷ cs) - 1)) more
    ∙ ap (memcmp_eq rest (d ∷ cs)) less
    ∙ memcmp_eq-starts_with rest (d ∷ cs)

module _ (haystack : List ℕ) (c : ℕ) (cs : List ℕ) where
  abbrev needle : List ℕ
  needle = c ∷ cs

  abbrev NotBefore : ℕ → Type 0
  NotBefore m = (j : ℕ) → j < m → ¬ Occurs haystack needle j

  too_late : (j : ℕ) → length haystack < j + length needle → ¬ Occurs haystack needle j
  too_late j h occurs =
      absurd
        (omega (arith, length-starts_with (drop j haystack) needle occurs, length-drop j haystack))

  no_later :
      (m n : ℕ)
      → memchr (drop m haystack) c n ≡ none
      → (j : ℕ) → m ≤ j
      → j < m + n
      → ¬ Occurs haystack needle j
  no_later m n nowhere j ge lt occurs =
      let e : m + (j - m) ≡ j = omega arith in
      let none_here = memchr-none (drop m haystack) c n nowhere (j - m) cs (omega arith) in
      let moved = drop-drop m (j - m) haystack in ground (arith, ap (λ i. drop i haystack) e)

  module _ (m n k : ℕ) (found : memchr (drop m haystack) c n ≡ some k) where
    NotBefore-found : NotBefore m → NotBefore (m + k)
    NotBefore-found before j lt = elim (dec_lt j m) [
      | yes early ↦ before j early
      | no ge ↦ λ occurs.
          let (_, _, earlier) = memchr-some (drop m haystack) c n k found in
          let e : m + (j - m) ≡ j = omega arith in
          let none_here = earlier (j - m) cs (omega arith) in
          let moved = drop-drop m (j - m) haystack in ground (arith, ap (λ i. drop i haystack) e)
    ]

    occurs_eq_rest :
        starts_with (drop (m + k) haystack) needle ≡ rest_eq (drop (m + k + 1) haystack) c cs
    occurs_eq_rest =
        let (_, at, _) = memchr-some (drop m haystack) c n k found in
        let e : m + suc k ≡ m + k + 1 = omega arith in
        let whole : drop (m + k) haystack ≡ c ∷ drop (m + k + 1) haystack =
          sym (drop-drop m k haystack)
          ∙ at
          ∙ ap (◌∷◌ c) (drop-drop m (suc k) haystack ∙ ap (λ i. drop i haystack) e) in
        let same : (c == c) ≡ true = ground arith in
        ap (λ xs. starts_with xs needle) whole
        ∙ ap (λ b. b && starts_with (drop (m + k + 1) haystack) cs) same
        ∙ sym (rest_eq-starts_with (drop (m + k + 1) haystack) c cs)

  past_miss :
      (m : ℕ) → NotBefore m → starts_with (drop m haystack) needle ≡ false → NotBefore (m + 1)
  past_miss m before miss j lt occurs = elim (dec_lt j m) [
    | yes early ↦ before j early occurs
    | no ge ↦
        let at_m : j ≡ m = omega arith in
        ground (arith, ap (λ i. starts_with (drop i haystack) needle) at_m)
  ]

  search-IsFirst :
      (fuel m search_end : ℕ)
      → search_end + length needle ≡ length haystack + 1
      → search_end ≤ m + fuel
      → NotBefore m
      → IsFirst haystack needle (search fuel haystack needle search_end m)
  unfolding search
  search-IsFirst zero m search_end e enough before =
      λ j. elim (dec_lt j m) [ yes lt ↦ before j lt | no ge ↦ too_late j (omega arith) ]
  search-IsFirst (suc fuel) m search_end e enough before = elim (Bool-cases (ltb m search_end)) [
    | inr past ↦
        rw (past, search)
          λ j. elim (dec_lt j m) [ yes lt ↦ before j lt | no ge ↦ too_late j (ground arith) ]
    | inl within ↦ elim (Option-cases (memchr (drop m haystack) c (search_end - m))) [
      | inl nowhere ↦
          rw (within, nowhere, search)
            λ j. elim (dec_lt j m) [
              | yes lt ↦ before j lt
              | no ge ↦ elim (dec_lt j search_end) [
                | yes lt ↦ no_later m (search_end - m) nowhere j (omega arith) (ground arith)
                | no late ↦ too_late j (omega arith)
              ]
            ]
      | inr (k, found) ↦
          let here = NotBefore-found m (search_end - m) k found before in
          let eq = occurs_eq_rest m (search_end - m) k found in
          let further = search-IsFirst fuel (m + k + 1) search_end e (omega arith) in
          rw (within, found, search)
            elim (Bool-cases (rest_eq (drop (m + k + 1) haystack) c cs)) [
              | inl hit ↦ rw hit (eq ∙ hit, here)
              | inr miss ↦ rw miss (further (past_miss (m + k) here (eq ∙ miss)))
            ]
    ]
  ]

-- `memfind` on a non-empty needle answers the first offset at which the needle occurs in the
-- haystack, or nothing where it does not occur.
pub memfind-IsFirst :
    (haystack : List ℕ) (c : ℕ) (cs : List ℕ)
    → IsFirst haystack (c ∷ cs) (memfind haystack (c ∷ cs))
unfolding memfind
memfind-IsFirst haystack c cs = elim (dec_lt (length haystack) (length (c ∷ cs))) [
  | yes short ↦
      let refused : memfind haystack (c ∷ cs) ≡ none = ground (arith, memfind) in
      rw refused λ j occurs. too_late haystack c cs j (omega arith) occurs
  | no fits ↦
      let search_end = length haystack - length (c ∷ cs) + 1 in
      let searched : memfind haystack (c ∷ cs) ≡ search search_end haystack (c ∷ cs) search_end 0 =
        ground (arith, memfind) in
      let first =
        search-IsFirst haystack c cs search_end 0 search_end (omega arith) (omega arith)
          (λ j lt. absurd (omega arith)) in
      rw searched first
]
