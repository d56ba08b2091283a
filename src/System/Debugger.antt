-- ===== src/System/Debugger.antt =====
-- debugger/debugger_is_attached.cpp where the system has /proc.
use mathlib.Core.List.{append_assoc}
use cpputils.Base.{
  ℕ, ◌≡◌, ◌≢◌, refl, List, [], ◌∷◌, ◌++◌, Option, none, some, Bool, true, false, not, ◌==◌, leb,
  ◌&&◌, ◌||◌, if◌then◌else◌, length, drop, codes, starts_with, arith, All, ap, ◌∙◌,
}

-- `isspace` and `isdigit` in the "C" locale.
abbrev pub is_space : ℕ → Bool
is_space c = c == 32 || (leb 9 c && leb c 13)

abbrev pub is_digit : ℕ → Bool
is_digit c = leb b'0' c && leb c b'9'

-- `strstr`, which looks no further than the first null byte: what follows the first `needle`.
unfoldable pub after_first : List ℕ → List ℕ → Option (List ℕ)
after_first needle [] = none
after_first needle (c ∷ cs) =
    let later = after_first needle cs in
    if starts_with (c ∷ cs) needle
    then some (drop (length needle) (c ∷ cs))
    else (if c == 0 then none else later)

-- The loop after `tracer_pid_ptr`, up to and with the terminator at `buf + num_read`.
unfoldable pub is_traced : List ℕ → Bool
is_traced [] = false
is_traced (c ∷ cs) =
    let later = is_traced cs in if is_space c then later else is_digit c && not (c == b'0')

abbrev pub tracer_pid : List ℕ
tracer_pid = codes "TracerPid:"

-- `debuggerIsAttached`, where `open` and `read` give the first bytes of /proc/self/status; `none`: one
-- of the two fails.
unfoldable pub debugger_is_attached : Option (List ℕ) → Bool
unfolding after_first is_traced
debugger_is_attached none = false
debugger_is_attached (some []) = false
debugger_is_attached (some (c ∷ cs)) =
    elim (after_first tracer_pid ((c ∷ cs) ++ 0 ∷ [])) as (λ _. Bool) [
      | none ↦ false
      | some rest ↦ is_traced rest
    ]

-- No needle starts in `before`, which has no null byte, when `rest` follows it.
unfoldable pub IsClear : List ℕ → List ℕ → List ℕ → Type 0
IsClear needle [] rest = Unit
IsClear needle (c ∷ before) rest =
    (c ≢ 0) × (starts_with ((c ∷ before) ++ rest) needle ≡ false) × IsClear needle before rest

starts_with-append : (xs ys : List ℕ) → starts_with (xs ++ ys) xs ≡ true
starts_with-append [] ys = refl
starts_with-append (x ∷ xs) ys = ground (arith, starts_with-append xs ys)

drop-append : (xs ys : List ℕ) → drop (length xs) (xs ++ ys) ≡ ys
drop-append [] ys = refl
drop-append (x ∷ xs) ys = drop-append xs ys

after_first-append :
    (needle before rest : List ℕ)
    → IsClear needle before (needle ++ rest)
    → ¬ (needle ≡ [])
    → after_first needle (before ++ (needle ++ rest)) ≡ some rest
unfolding after_first IsClear
after_first-append [] [] rest clear ne = absurd (ne refl)
after_first-append (n ∷ needle) [] rest clear ne =
    ground (arith, starts_with-append (n ∷ needle) rest, drop-append (n ∷ needle) rest)
after_first-append needle (c ∷ before) rest (nonzero, none_here, clear) ne =
    ground (arith, after_first-append needle before rest clear ne)

is_traced-append :
    (blanks : List ℕ) (digit : ℕ) (after : List ℕ)
    → All (λ c. is_space c ≡ true) blanks
    → is_digit digit ≡ true
    → is_traced (blanks ++ (digit ∷ after)) ≡ not (digit == b'0')
unfolding is_traced
is_traced-append [] digit after spaces is_number = ground arith
is_traced-append (c ∷ blanks) digit after spaces is_number =
    ground (arith, is_traced-append blanks digit after spaces.1 is_number)

attached_from :
    (text : List ℕ)
    → debugger_is_attached (some text)
      ≡ (elim (after_first tracer_pid (text ++ 0 ∷ [])) as (λ _. Bool) [
        | none ↦ false
        | some rest ↦ is_traced rest
      ])
unfolding debugger_is_attached after_first
attached_from [] = refl
attached_from (c ∷ cs) = refl

-- Where the status holds "TracerPid:", after a text without a null byte and in which this does not
-- stand, and then white space and a number: a debugger is reported if the number's first digit is not
-- 0.
pub debugger_is_attached_lem :
    (before blanks : List ℕ) (digit : ℕ) (after : List ℕ)
    → IsClear tracer_pid before (tracer_pid ++ (blanks ++ (digit ∷ after ++ 0 ∷ [])))
    → All (λ c. is_space c ≡ true) blanks
    → is_digit digit ≡ true
    → debugger_is_attached (some (before ++ (tracer_pid ++ (blanks ++ (digit ∷ after)))))
      ≡ not (digit == b'0')
debugger_is_attached_lem before blanks digit after clear spaces is_number =
    let rest : List ℕ = blanks ++ (digit ∷ after ++ 0 ∷ []) in
    let text_eq : before ++ (tracer_pid ++ (blanks ++ (digit ∷ after))) ++ 0 ∷ []
        ≡ before ++ (tracer_pid ++ rest) =
      append_assoc before (tracer_pid ++ (blanks ++ (digit ∷ after))) (0 ∷ [])
      ∙ ap (λ l. before ++ (tracer_pid ++ l)) (append_assoc blanks (digit ∷ after) (0 ∷ [])) in
    attached_from (before ++ (tracer_pid ++ (blanks ++ (digit ∷ after))))
    ∙ rw (text_eq, after_first-append tracer_pid before rest clear (λ e. ground arith))
        (is_traced-append blanks digit (after ++ 0 ∷ []) spaces is_number)

-- A process that is called TracerPid:1 is reported as debugged, whatever follows the first line.
name_is_taken :
    debugger_is_attached
      (some (codes "Name:" ++ 9 ∷ codes "TracerPid:1" ++ 10 ∷ codes "TracerPid:" ++ 9 ∷ b'0' ∷ []))
    ≡ true
unfolding debugger_is_attached
name_is_taken = refl
