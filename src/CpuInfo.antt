-- ===== src/CpuInfo.antt =====
-- system/cpuinfo.cpp: `trimmed`, and `cpuModelName` where the system has /proc/cpuinfo. A text is a
-- list of bytes.
pub mod Names
use cpputils.Base.{
  ℕ, suc, ◌+◌, ◌-◌, List, [], ◌∷◌, Option, none, some, Bool, true, false, ◌==◌, ◌&&◌, ◌||◌,
  if◌then◌else◌, take, drop, codes, bytes_eq, find_char, one_on,
}
use cpputils.StorageSpeed.Tables.{lines_of}

abbrev pub is_blank : ℕ → Bool
is_blank c = c == 32 || c == 9

-- `find_first_not_of(" \t")`
abbrev pub first_not_blank : List ℕ → Option ℕ
first_not_blank [] = none
first_not_blank (c ∷ cs) = if is_blank c then one_on (first_not_blank cs) else some 0

abbrev or_first : Bool → Option ℕ → Option ℕ
or_first is_here (some i) = some (suc i)
or_first is_here none = if is_here then some 0 else none

-- `find_last_not_of(" \t")`
abbrev pub last_not_blank : List ℕ → Option ℕ
last_not_blank [] = none
last_not_blank (c ∷ cs) = or_first (if is_blank c then false else true) (last_not_blank cs)

abbrev position : Option ℕ → ℕ
position none = 0
position (some i) = i

unfoldable pub trimmed : List ℕ → List ℕ
trimmed text = elim (first_not_blank text) [
  | none ↦ []
  | some first ↦ take (position (last_not_blank text) - first + 1) (drop first text)
]

abbrev pub is_empty : List ℕ → Bool
is_empty [] = true
is_empty _ = false

abbrev pub is_fallback_key : List ℕ → Bool
is_fallback_key key = bytes_eq key (codes "Hardware") || bytes_eq key (codes "Model")

abbrev pub next_fallback : List ℕ → List ℕ → List ℕ → List ℕ
next_fallback key value fallback =
    if is_empty fallback && is_fallback_key key then value else fallback

-- The loop over the lines, with `fallbackName`.
unfoldable pub search_name : List (List ℕ) → List ℕ → List ℕ
unfolding trimmed find_char
search_name [] fallback = fallback
search_name (line ∷ rest) fallback = elim (find_char line b':' 0) [
  | none ↦ search_name rest fallback
  | some colon ↦
      let key = trimmed (take colon line) in
      let value = trimmed (drop (colon + 1) line) in
      let otherwise = search_name rest (next_fallback key value fallback) in
      if bytes_eq key (codes "model name") then value else otherwise
]

-- `cpuModelName`; `none`: the file cannot be opened.
unfoldable pub cpu_model_name : Option (List ℕ) → List ℕ
unfolding search_name lines_of
cpu_model_name none = []
cpu_model_name (some text) = search_name (lines_of text) []
