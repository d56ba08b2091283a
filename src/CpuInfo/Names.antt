-- ===== src/CpuInfo/Names.antt =====
-- Which line of /proc/cpuinfo names the processor.
use cpputils.Base.{
  ℕ, ◌≡◌, List, [], ◌∷◌, ◌++◌, Option, none, some, true, false, if◌then◌else◌, not, ◌&&◌, All,
  bytes_eq,
}
use cpputils.StorageSpeed.Tables.Text.{HasNo}
use cpputils.CpuInfo.{is_blank, is_fallback_key, is_empty}

abbrev AllBlank : List ℕ → Type 0
AllBlank xs = All (λ c. is_blank c ≡ true) xs

-- A text that neither starts nor ends with a blank.
abbrev EndsPlain : List ℕ → Type 0
EndsPlain [] = ⊥
EndsPlain (c ∷ []) = is_blank c ≡ false
EndsPlain (c ∷ d ∷ cs) = EndsPlain (d ∷ cs)

abbrev IsTrimmed : List ℕ → Type 0
IsTrimmed [] = Unit
IsTrimmed (c ∷ cs) = (is_blank c ≡ false) × EndsPlain (c ∷ cs)

-- A line: a key, blanks, a colon, and the value between blanks.
pub record InfoLine : Type 0 where
  pub key : List ℕ
  pub padding : List ℕ
  pub before : List ℕ
  pub value : List ℕ
  pub after : List ℕ

abbrev pub written : InfoLine → List ℕ
written l = (l.key ++ l.padding) ++ (b':' ∷ (l.before ++ (l.value ++ l.after)))

-- Lines, with empty ones between the processors.
abbrev pub written_lines : List (Option InfoLine) → List ℕ
written_lines [] = []
written_lines (none ∷ ls) = 10 ∷ written_lines ls
written_lines (some l ∷ ls) = written l ++ (10 ∷ written_lines ls)

abbrev IsLine : InfoLine → Type 0
IsLine l =
    IsTrimmed l.key
    × AllBlank l.padding
    × AllBlank l.before
    × IsTrimmed l.value
    × AllBlank l.after
    × HasNo b':' (l.key ++ l.padding)
    × HasNo 10 (written l)

abbrev pub IsEntry : Option InfoLine → Type 0
IsEntry none = Unit
IsEntry (some l) = IsLine l

-- The value of the first line with a key.
abbrev value_of : List ℕ → List (Option InfoLine) → Option (List ℕ)
value_of key [] = none
value_of key (none ∷ ls) = value_of key ls
value_of key (some l ∷ ls) = if bytes_eq l.key key then some l.value else value_of key ls

-- The value of the first line, "Hardware" or "Model", that has one.
abbrev fallback_of : List (Option InfoLine) → List ℕ
fallback_of [] = []
fallback_of (none ∷ ls) = fallback_of ls
fallback_of (some l ∷ ls) =
    if is_fallback_key l.key && not (is_empty l.value) then l.value else fallback_of ls

abbrev name_or : List ℕ → Option (List ℕ) → List ℕ
name_or fallback none = fallback
name_or fallback (some name) = name

abbrev fallback_from : List ℕ → List (Option InfoLine) → List ℕ
fallback_from found ls = if is_empty found then fallback_of ls else found
