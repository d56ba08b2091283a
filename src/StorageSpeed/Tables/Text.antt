-- ===== src/StorageSpeed/Tables/Text.antt =====
-- Lines and words that are put together are read apart again.
use cpputils.Base.{
  ℕ, ◌≡◌, refl, List, [], ◌∷◌, ◌++◌, some, false, ◌==◌, arith, All, length, find_char, take, drop,
  ◌+◌, suc, ap,
}
use cpputils.StorageSpeed.Tables.{lines_of, words_of, is_space}

abbrev pub HasNo : ℕ → List ℕ → Type 0
HasNo c xs = All (λ x. (x == c) ≡ false) xs

pub lines_of-line :
    (line text : List ℕ) → HasNo 10 line → lines_of (line ++ (10 ∷ text)) ≡ line ∷ lines_of text
unfolding lines_of
lines_of-line [] text h = refl
lines_of-line (c ∷ cs) text h = ground (arith, lines_of-line cs text)

-- A text with no white space, of one byte at least.
abbrev pub IsWord : List ℕ → Type 0
IsWord [] = ⊥
IsWord (x ∷ xs) = (is_space x ≡ false) × All (λ c. is_space c ≡ false) xs

words_of-end : (x : ℕ) (w : List ℕ) → IsWord (x ∷ w) → words_of (x ∷ w) ≡ (x ∷ w) ∷ []
unfolding words_of
words_of-end x [] h = ground arith
words_of-end x (y ∷ w) h = ground (arith, words_of-end y w)

words_of-word :
    (x : ℕ) (w text : List ℕ)
    → IsWord (x ∷ w)
    → words_of ((x ∷ w) ++ (32 ∷ text)) ≡ (x ∷ w) ∷ words_of text
unfolding words_of
words_of-word x [] text h = ground arith
words_of-word x (y ∷ w) text h = ground (arith, words_of-word y w text)

abbrev pub unwords : List (List ℕ) → List ℕ
unwords [] = []
unwords (w ∷ []) = w
unwords (w ∷ v ∷ ws) = w ++ (32 ∷ unwords (v ∷ ws))

pub words_of-unwords : (ws : List (List ℕ)) → All IsWord ws → words_of (unwords ws) ≡ ws
unfolding words_of
words_of-unwords [] h = refl
words_of-unwords ([] ∷ ws) h = absurd (h.0)
words_of-unwords ((x ∷ w) ∷ []) h = words_of-end x w h.0
words_of-unwords ((x ∷ w) ∷ v ∷ ws) h =
    ground (arith, words_of-word x w (unwords (v ∷ ws)), words_of-unwords (v ∷ ws))

pub find_char-first :
    (c : ℕ) (xs rest : List ℕ) → HasNo c xs → find_char (xs ++ (c ∷ rest)) c 0 ≡ some (length xs)
unfolding find_char
find_char-first c [] rest h = ground arith
find_char-first c (x ∷ xs) rest h = ground (arith, find_char-first c xs rest)

pub take-append : (xs ys : List ℕ) → take (length xs) (xs ++ ys) ≡ xs
take-append [] ys = refl
take-append (x ∷ xs) ys = ap (λ zs. x ∷ zs) (take-append xs ys)

pub drop-append : (xs : List ℕ) (c : ℕ) (ys : List ℕ) → drop (length xs + 1) (xs ++ (c ∷ ys)) ≡ ys
drop-append [] c ys = refl
drop-append (x ∷ xs) c ys =
    let e : suc (length xs) + 1 ≡ suc (length xs + 1) = omega arith in rw e (drop-append xs c ys)
