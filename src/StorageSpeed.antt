-- ===== src/StorageSpeed.antt =====
-- system/storagespeed.cpp: the platform-independent part, which finds the mount that holds a path,
-- and the cache of volume speeds. A path is a list of bytes. `std::filesystem`'s lexical
-- normalisation, the reading of a link and the query of a volume are arguments.
pub mod Mounts
pub mod Links
pub mod Escapes
pub mod Cache
pub mod Windows
pub mod Devices
pub mod Tables
pub mod Lookup
use cpputils.Base.{
  ℕ, zero, suc, ◌+◌, ◌-◌, ◌*◌, ◌%◌, List, [], ◌∷◌, ◌++◌, Option, none, some, Bool, true, false,
  ◌==◌, ltb, leb, ◌&&◌, ◌||◌, not, if◌then◌else◌, length, take, drop, get_or, codes, bytes_eq,
  starts_with, ends_with, find_char,
}

pub record Mount : Type 0 where
  pub mount_point : List ℕ
  pub device : List ℕ
  pub local : Bool

pub record Firmlink : Type 0 where
  pub path : List ℕ
  pub target : List ℕ

-- `isWithinFolder`
unfoldable pub is_within_folder : List ℕ → List ℕ → Bool
is_within_folder path folder =
    starts_with path folder
    && (length path == length folder
        || ends_with folder b'/'
        || get_or path (length folder) 0 == b'/')

abbrev is_octal_digit : ℕ → Bool
is_octal_digit c = leb b'0' c && leb c b'7'

-- `unescapedMountPoint`. The cast to `char` keeps the low byte.
unfoldable pub unescaped_mount_point : List ℕ → List ℕ
unescaped_mount_point [] = []
unescaped_mount_point (x ∷ a ∷ b ∷ c ∷ rest) =
    let decoded = unescaped_mount_point rest in
    let plain = unescaped_mount_point (a ∷ b ∷ c ∷ rest) in
    if x == 92 && (is_octal_digit a && (is_octal_digit b && is_octal_digit c))
    then ((a - b'0') * 64 + (b - b'0') * 8 + (c - b'0')) % 256 ∷ decoded
    else x ∷ plain
unescaped_mount_point (x ∷ xs) = x ∷ unescaped_mount_point xs

abbrev local_types : List (List ℕ)
local_types =
    codes "ext2"
    ∷ codes "ext3"
    ∷ codes "ext4"
    ∷ codes "xfs"
    ∷ codes "btrfs"
    ∷ codes "f2fs"
    ∷ codes "jfs"
    ∷ codes "reiserfs"
    ∷ codes "zfs"
    ∷ codes "bcachefs"
    ∷ codes "nilfs2"
    ∷ codes "vfat"
    ∷ codes "msdos"
    ∷ codes "exfat"
    ∷ codes "ntfs"
    ∷ codes "ntfs3"
    ∷ codes "fuseblk"
    ∷ codes "hfs"
    ∷ codes "hfsplus"
    ∷ codes "udf"
    ∷ codes "iso9660"
    ∷ codes "squashfs"
    ∷ codes "erofs"
    ∷ codes "overlay"
    ∷ codes "tmpfs"
    ∷ codes "ramfs"
    ∷ codes "devtmpfs"
    ∷ codes "devpts"
    ∷ codes "proc"
    ∷ codes "sysfs"
    ∷ []

abbrev contains : List (List ℕ) → List ℕ → Bool
contains [] t = false
contains (x ∷ xs) t = bytes_eq x t || contains xs t

-- `isLocalFileSystemType`
unfoldable pub is_local_file_system_type : List ℕ → Bool
is_local_file_system_type type = contains local_types type

-- The loop over the optional fields, up to the first that is "-".
abbrev after_dash : List (List ℕ) → Option (List (List ℕ))
after_dash [] = none
after_dash (field ∷ fields) = if bytes_eq field (b'-' ∷ []) then some fields else after_dash fields

-- One line of `parseMountInfo`, as the words that `>>` reads. `none`: the line is skipped.
unfoldable pub parse_line : List (List ℕ) → Option Mount
unfolding unescaped_mount_point is_local_file_system_type
parse_line (mount_id ∷ parent_id ∷ device ∷ root ∷ mount_point ∷ fields) =
    elim (after_dash fields) [
      | none ↦ none
      | some rest ↦ elim rest [
        | [] ↦ none
        | type ∷ _ ↦ some (record {
          mount_point = unescaped_mount_point mount_point;
          device = device;
          local = is_local_file_system_type type;
        })
      ]
    ]
parse_line _ = none

-- Both loops over a list that keep the best match so far: `beats` compares the length of the match
-- with that of a new candidate.
unfoldable pub best :
    {A : Type 0} → (A → ℕ) → (A → Bool) → (ℕ → ℕ → Bool) → Option A → List A → Option A
best size fits beats match [] = match
best size fits beats match (x ∷ xs) =
    let better : Bool = elim match [ none ↦ true | some m ↦ beats (size m) (size x) ] in
    best size fits beats (if fits x && better then some x else match) xs

-- `canonicalPath`
unfoldable pub canonical_path : List ℕ → List Firmlink → List ℕ
unfolding best is_within_folder
canonical_path path firmlinks =
    elim (best (λ (f : Firmlink). length f.path) (λ (f : Firmlink). is_within_folder path f.path)
      ltb none firmlinks) [
        | none ↦ path
        | some match ↦ match.target ++ drop (length match.path) path
      ]

-- `mountForPath`
unfoldable pub mount_for_path : List Mount → List ℕ → Option Mount
unfolding best is_within_folder
mount_for_path mounts path =
    best (λ (m : Mount). length m.mount_point) (λ (m : Mount). is_within_folder path m.mount_point)
      leb none mounts

-- What the scan over a path's components comes to: nothing to follow, or a link, with where its
-- component starts and ends and what it leads to.
pub data Scan : Type 0 where
  stopped : Scan
  link : ℕ → ℕ → List ℕ → Scan
  out_of_rounds : Scan

-- `componentEnd`
unfoldable pub end_of_component : ℕ → List ℕ → ℕ
unfolding find_char
end_of_component component_start path = elim (find_char path b'/' component_start) [
  | none ↦ length path
  | some slash ↦ slash
]

module _ (mounts : List Mount) (read_link_target : List ℕ → List ℕ) where
  -- `none`: the prefix is on no mount or on a remote one, and the loop ends.
  unfoldable pub visit : Option Mount → List ℕ → Option (List ℕ)
  visit none prefix = none
  visit (some mount) prefix = if mount.local then some (read_link_target prefix) else none

  -- The rounds of the loop of `resolveLocalSymlinks` that find no link.
  unfoldable pub scan : ℕ → ℕ → List ℕ → Scan
  unfolding mount_for_path end_of_component visit
  scan zero component_start path = out_of_rounds
  scan (suc rounds) component_start path =
      let component_end : ℕ = end_of_component component_start path in
      let prefix = take component_end path in
      let rest = scan rounds (component_end + 1) path in
      if ltb component_start (length path)
      then (elim (visit (mount_for_path mounts prefix) prefix) [
        | none ↦ stopped
        | some target ↦ elim target [
          | [] ↦ rest
          | c ∷ cs ↦ link component_start component_end (c ∷ cs)
        ]
      ])
      else stopped

-- The path that a link leads to, with what followed the link.
unfoldable pub linked_path : List Firmlink → (List ℕ → List ℕ) → ℕ → ℕ → List ℕ → List ℕ → List ℕ
unfolding canonical_path
linked_path firmlinks lexically_normal component_start component_end target path =
    canonical_path
      (lexically_normal (
        (if starts_with target (b'/' ∷ []) then target else take component_start path ++ target)
        ++ drop component_end path))
      firmlinks

-- What follows a scan, with `left` hops left after it and `again` the rest of the loop.
unfoldable pub after_scan :
    (ℕ → ℕ → List ℕ → List ℕ) → (List ℕ → Option (List ℕ)) → ℕ → List ℕ → Scan → Option (List ℕ)
after_scan linked again left path stopped = some path
after_scan linked again left path out_of_rounds = none
after_scan linked again left path (link s e target) =
    if left == 0 then some path else again (linked s e target)

module _ (mounts : List Mount) (firmlinks : List Firmlink) (lexically_normal : List ℕ → List ℕ)
    (read_link_target : List ℕ → List ℕ) where
  -- The loop, with `hopsLeft`; a component starts at 1 after each hop.
  unfoldable pub hops : ℕ → List ℕ → Option (List ℕ)
  unfolding scan linked_path after_scan
  hops zero path = some path
  hops (suc left) path =
      after_scan (λ s e target. linked_path firmlinks lexically_normal s e target path)
        (λ p. hops left p) left path (scan mounts read_link_target (length path + 1) 1 path)

  unfoldable pub resolve_local_symlinks : List ℕ → Option (List ℕ)
  unfolding hops
  resolve_local_symlinks path = hops 40 path

pub data Speed : Type 0 where
  fast_random_access slow_or_unknown : Speed

-- `storageSpeedForPath`, from the volume key that was found (`none`: there is none) and with the
-- cache. `same` is the keys' `==`, `query` is `queryVolumeSpeed`.
module _ {K : Type 0} (same : K → K → Bool) where
  abbrev cached : K → List (K × Speed) → Option Speed
  cached key [] = none
  cached key ((k, speed) ∷ entries) = if same k key then some speed else cached key entries

  unfoldable pub storage_speed_for_key :
      (K → Speed) → Option K → List (K × Speed) → Speed × List (K × Speed)
  storage_speed_for_key query none cache = (slow_or_unknown, cache)
  storage_speed_for_key query (some key) cache = elim (cached key cache) [
    | some speed ↦ (speed, cache)
    | none ↦ (query key, cache ++ (key, query key) ∷ [])
  ]
