-- ===== src/StorageSpeed/Tables.antt =====
-- system/storagespeed.cpp: how the texts of the system's tables are read, and
-- `volumeDeviceForPath` with `storageSpeedForPath` on Linux and macOS. `std::getline` and `>>` are by
-- their documented behaviour in the "C" locale.
pub mod Text
pub mod Readback
use cpputils.Base.{
  ℕ, ◌+◌, List, [], ◌∷◌, ◌++◌, Option, none, some, Bool, true, false, ◌==◌, leb, ◌&&◌, ◌||◌, not,
  if◌then◌else◌, length, take, drop, starts_with, find_char,
}
use cpputils.StorageSpeed.{
  Mount, Firmlink, Speed, slow_or_unknown, parse_line, canonical_path, mount_for_path,
  resolve_local_symlinks, storage_speed_for_key,
}

abbrev cons_first : ℕ → List (List ℕ) → List (List ℕ)
cons_first c [] = (c ∷ []) ∷ []
cons_first c (l ∷ ls) = (c ∷ l) ∷ ls

-- The lines that `std::getline` reads: the text after the last newline is one if it is not empty.
unfoldable pub lines_of : List ℕ → List (List ℕ)
lines_of [] = []
lines_of (c ∷ cs) = let rest = lines_of cs in if c == 10 then [] ∷ rest else cons_first c rest

-- `std::isspace`
abbrev pub is_space : ℕ → Bool
is_space c = c == 32 || (leb 9 c && leb c 13)

abbrev ends_word : List ℕ → Bool
ends_word [] = true
ends_word (c ∷ _) = is_space c

-- The words that `>>` reads.
unfoldable pub words_of : List ℕ → List (List ℕ)
words_of [] = []
words_of (c ∷ cs) =
    let rest = words_of cs in
    if is_space c then rest else (if ends_word cs then (c ∷ []) ∷ rest else cons_first c rest)

abbrev pub kept : {A : Type 0} → Option A → List A → List A
kept none xs = xs
kept (some x) xs = x ∷ xs

unfoldable pub mounts_of : List (List ℕ) → List Mount
unfolding words_of parse_line
mounts_of [] = []
mounts_of (line ∷ rest) = kept (parse_line (words_of line)) (mounts_of rest)

-- `parseMountInfo`
unfoldable pub parse_mount_info : List ℕ → List Mount
unfolding lines_of mounts_of
parse_mount_info text = mounts_of (lines_of text)

-- One line of `parseFirmlinks`. `none`: the line is skipped.
unfoldable pub parse_firmlink : List ℕ → List ℕ → Option Firmlink
unfolding find_char
parse_firmlink root line = elim (find_char line 9 0) [
  | none ↦ none
  | some tab ↦
      if not (starts_with line (b'/' ∷ [])) || (tab + 1 == length line)
      then none
      else some (record { path = take tab line; target = root ++ (b'/' ∷ drop (tab + 1) line) })
]

unfoldable pub firmlinks_of : List ℕ → List (List ℕ) → List Firmlink
unfolding parse_firmlink
firmlinks_of root [] = []
firmlinks_of root (line ∷ rest) = kept (parse_firmlink root line) (firmlinks_of root rest)

-- `parseFirmlinks`
unfoldable pub parse_firmlinks : List ℕ → List ℕ → List Firmlink
unfolding lines_of firmlinks_of
parse_firmlinks text root = firmlinks_of root (lines_of text)

-- `volumeDeviceForPath`. `absolute` is what `lexicallyAbsolutePath` gives; the empty text is an
-- answer too. `none`: the rounds of the scan run out.
module _ (mounts : List Mount) (firmlinks : List Firmlink) (lexically_normal : List ℕ → List ℕ)
    (symlink_target : List ℕ → List ℕ) where
  unfoldable pub volume_device_for_path : Option (List ℕ) → Option (List ℕ)
  unfolding canonical_path mount_for_path resolve_local_symlinks
  volume_device_for_path none = some []
  volume_device_for_path (some absolute) =
      elim (resolve_local_symlinks mounts firmlinks lexically_normal symlink_target
        (canonical_path absolute firmlinks)) [
          | none ↦ none
          | some resolved ↦ elim (mount_for_path mounts resolved) as (λ _. Option (List ℕ)) [
            | none ↦ some []
            | some mount ↦ some mount.device
          ]
        ]

-- `volumeKeyForPath`: `volumeKeyFromDevice` on a device that is not empty.
abbrev pub volume_key : {K : Type 0} → (List ℕ → Option K) → List ℕ → Option K
volume_key from_device [] = none
volume_key from_device (c ∷ cs) = from_device (c ∷ cs)
