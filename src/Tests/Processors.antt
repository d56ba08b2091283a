-- ===== src/Tests/Processors.antt =====
-- system/cpuinfo.cpp on the beginning of an x86 machine's /proc/cpuinfo.
use cpputils.Base.{ℕ, List, [], ◌∷◌, Option, none, some, codes}
use cpputils.CpuInfo.Names.{InfoLine}

abbrev line_of : List ℕ → List ℕ → InfoLine
line_of key value = record {
  key = key;
  padding = 9 ∷ [];
  before = 32 ∷ [];
  value = value;
  after = [];
}

abbrev info : List (Option InfoLine)
info =
    some (line_of (codes "cpu") (codes "6"))
    ∷ some (line_of (codes "model name") (codes "A B"))
    ∷ none
    ∷ []
