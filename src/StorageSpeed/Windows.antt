-- ===== src/StorageSpeed/Windows.antt =====
-- system/storagespeed.cpp on Windows: which volume a path is on. A text is a list of UTF-16 units.
-- The system calls are arguments: what `CompareStringOrdinal` finds equal, the volumes' names, the
-- drives' types, and the volume path that the system finds by accessing the path.
pub mod Table
pub mod Local
use cpputils.Base.{
  ℕ, ◌+◌, ◌≤◌, ◌≡◌, List, [], ◌∷◌, ◌++◌, Option, none, some, Bool, true, false, ◌==◌, leb, ◌&&◌,
  ◌||◌, not, if◌then◌else◌, length, take, drop, get_or, map, codes, bytes_eq, starts_with,
}

pub record VolumeKey : Type 0 where
  pub guid_path : List ℕ
  pub mount_path : List ℕ

pub record VolumeMount : Type 0 where
  pub path : List ℕ
  pub guid_path : List ℕ

abbrev pub is_empty : List ℕ → Bool
is_empty [] = true
is_empty _ = false

-- `VolumeKey::operator==`
unfoldable same_volume : VolumeKey → VolumeKey → Bool
same_volume k other =
    if not (is_empty k.guid_path) && is_empty other.guid_path
      || is_empty k.guid_path && not (is_empty other.guid_path)
    then false
    else (if is_empty k.guid_path
        then bytes_eq k.mount_path other.mount_path
        else bytes_eq k.guid_path other.guid_path)

-- `normalizedWindowsPath`
unfoldable pub normalized_windows_path : List ℕ → List ℕ
normalized_windows_path path = map (λ c. if c == b'/' then 92 else c) path

abbrev is_letter : ℕ → Bool
is_letter c = leb b'A' c && leb c b'Z' || leb b'a' c && leb c b'z'

-- `driveRoot`; the four units that it strips are \\?\.
abbrev verbatim : List ℕ
verbatim = 92 ∷ 92 ∷ 63 ∷ 92 ∷ []

unfoldable pub drive_root : List ℕ → List ℕ
drive_root path =
    let p = if starts_with path verbatim then drop 4 path else path in
    if leb 2 (length p) && (get_or p 1 0 == b':') && is_letter (get_or p 0 0)
    then get_or p 0 0 ∷ b':' ∷ 92 ∷ []
    else []

-- `GetDriveTypeW`
pub data DriveType : Type 0 where
  drive_fixed drive_ramdisk drive_other : DriveType

abbrev pub is_local_drive : DriveType → Bool
is_local_drive drive_other = false
is_local_drive _ = true

-- A volume as it is enumerated: its name, and the paths at which it is mounted; `none`: they cannot
-- be had.
pub record Volume : Type 0 where
  pub guid_path : List ℕ
  pub path_names : Option (List (List ℕ))

-- What the system answers, and `std::sort` by falling length of the path. A volume's name is asked for twice at most, and may have changed between.
pub record SystemCalls : Type 0 where
  pub equal_ordinal : List ℕ → List ℕ → Bool
  pub volume_name : Bool → List ℕ → Option (List ℕ)
  pub drive_type : List ℕ → DriveType
  pub volume_path : List ℕ → Option (List ℕ)
  pub root_name : List ℕ → Option (List ℕ)
  pub volumes : List Volume
  pub sorted : List VolumeMount → List VolumeMount

abbrev mounts_at : List ℕ → List (List ℕ) → List VolumeMount
unfolding normalized_windows_path
mounts_at guid_path [] = []
mounts_at guid_path (name ∷ names) =
    record { path = normalized_windows_path name; guid_path = guid_path }
    ∷ mounts_at guid_path names

abbrev mounts_of : List Volume → List VolumeMount
unfolding mounts_at
mounts_of [] = []
mounts_of (v ∷ volumes) = elim v.path_names [
  | none ↦ mounts_of volumes
  | some names ↦ mounts_at v.guid_path names ++ mounts_of volumes
]

-- `enumerateVolumeMounts`
unfoldable pub enumerate_volume_mounts : SystemCalls → List VolumeMount
unfolding mounts_of
enumerate_volume_mounts os = os.sorted (mounts_of os.volumes)

-- `equalIgnoringCase`
unfoldable pub equal_ignoring_case : SystemCalls → List ℕ → List ℕ → Bool
equal_ignoring_case os left right = (length left == length right) && os.equal_ordinal left right

-- `hasPathPrefix`
unfoldable pub has_path_prefix : SystemCalls → List ℕ → List ℕ → Bool
has_path_prefix os path prefix =
    leb (length prefix) (length path) && os.equal_ordinal (take (length prefix) path) prefix

-- `isUncPath`
unfoldable pub is_unc_path : SystemCalls → List ℕ → Bool
unfolding has_path_prefix
is_unc_path os path =
    if has_path_prefix os path (verbatim ++ codes "UNC" ++ 92 ∷ [])
    then true
    else starts_with path (92 ∷ 92 ∷ [])
      && not (starts_with path verbatim)
      && not (starts_with path (92 ∷ 92 ∷ 46 ∷ 92 ∷ []))

-- `std::find_if` over the table.
unfoldable pub find_mount : SystemCalls → List ℕ → List VolumeMount → Option VolumeMount
unfolding has_path_prefix
find_mount os path [] = none
find_mount os path (m ∷ mounts) =
    if has_path_prefix os path m.path then some m else find_mount os path mounts

pub data Found : Type 0 where
  missing : Found
  stale : Found
  valid : VolumeMount → Found

-- One attempt of `volumeKeyFromMountTable`: the entry counts only if the mount point still leads to
-- its volume.
unfoldable pub attempt : SystemCalls → Bool → List ℕ → List VolumeMount → Found
unfolding find_mount equal_ignoring_case
attempt os again path mounts = elim (find_mount os path mounts) [
  | none ↦ missing
  | some m ↦ elim (os.volume_name again m.path) [
    | none ↦ stale
    | some current ↦ if equal_ignoring_case os m.guid_path current then valid m else stale
  ]
]

abbrev pub key_of : VolumeMount → VolumeKey
key_of m = record { guid_path = m.guid_path; mount_path = m.path }

abbrev key_of_found : Found → Option VolumeKey
key_of_found (valid m) = some (key_of m)
key_of_found _ = none

-- `volumeKeyFromMountTable`, with the table as it leaves it.
abbrev retry : SystemCalls → List ℕ → List VolumeMount → Found → Option VolumeKey × List VolumeMount
unfolding attempt enumerate_volume_mounts
retry os path mounts missing = (none, mounts)
retry os path mounts (valid m) = (some (key_of m), mounts)
retry os path mounts stale =
    let fresh = enumerate_volume_mounts os in (key_of_found (attempt os true path fresh), fresh)

unfoldable pub volume_key_from_mount_table :
    SystemCalls → List ℕ → List VolumeMount → Option VolumeKey × List VolumeMount
unfolding attempt retry
volume_key_from_mount_table os path mounts = retry os path mounts (attempt os false path mounts)

abbrev or_empty : Option (List ℕ) → List ℕ
or_empty none = []
or_empty (some name) = name

-- `volumeKeyFromSystem`
unfoldable volume_key_from_system : SystemCalls → List ℕ → Option VolumeKey
volume_key_from_system os path = elim (os.volume_path path) [
  | none ↦ none
  | some root ↦ some (record { guid_path = or_empty (os.root_name root); mount_path = root })
]

-- The part of `volumeKeyForPath` that follows the test for a local drive.
abbrev lookup :
    SystemCalls → List ℕ → Option VolumeKey × List VolumeMount → Option VolumeKey × List VolumeMount
unfolding volume_key_from_system enumerate_volume_mounts
lookup os path (some key, mounts) = (some key, mounts)
lookup os path (none, mounts) = elim (volume_key_from_system os path) [
  | none ↦ (none, mounts)
  | some key ↦ (some key, if is_empty key.guid_path then mounts else enumerate_volume_mounts os)
]

-- Whether `volumeKeyForPath` looks the path up at all.
unfoldable pub is_looked_up : SystemCalls → List ℕ → Bool
unfolding is_unc_path drive_root
is_looked_up os path =
    if is_unc_path os path
    then false
    else (is_empty (drive_root path) || is_local_drive (os.drive_type (drive_root path)))

-- `volumeKeyForPath`, from what `std::filesystem::absolute` gives; `none`: an error.
unfoldable pub volume_key_for_path :
    SystemCalls → Option (List ℕ) → List VolumeMount → Option VolumeKey × List VolumeMount
unfolding normalized_windows_path is_looked_up volume_key_from_mount_table lookup
volume_key_for_path os none mounts = (none, mounts)
volume_key_for_path os (some absolute) mounts =
    let path = normalized_windows_path absolute in
    if is_looked_up os path
    then lookup os path (volume_key_from_mount_table os path mounts)
    else (none, mounts)
