-- ===== src/StorageSpeed/Lookup.antt =====
-- system/storagespeed.cpp: `storageSpeedForPath` from a path to a speed on Linux and on macOS. What
-- the system answers is a record; a text that cannot be read is `none`.
pub mod Fast
pub mod Linux
pub mod Registry
pub mod Mac
pub mod Local
use cpputils.Base.{
  ℕ, ◌+◌, ◌*◌, List, [], ◌∷◌, ◌++◌, Option, none, some, Bool, true, false, not, ◌==◌, ltb, ◌&&◌,
  ◌||◌, if◌then◌else◌, map, length, take, drop, codes, bytes_eq,
}
use cpputils.StorageSpeed.{
  Mount, Firmlink, Speed, slow_or_unknown, canonical_path, storage_speed_for_key,
}
use cpputils.StorageSpeed.Tables.{
  parse_mount_info, parse_firmlinks, volume_device_for_path, volume_key,
}
use cpputils.StorageSpeed.Devices.{query_linux, query_macos}

-- `PATH_MAX`
abbrev pub path_max : ℕ
path_max = 4096

-- `symlinkTarget`, where `readlink` gives the first `PATH_MAX` bytes of the target, or -1.
unfoldable pub symlink_target : (List ℕ → Option (List ℕ)) → List ℕ → List ℕ
symlink_target read_link path = elim (read_link path) as (λ _. List ℕ) [
  | none ↦ []
  | some whole ↦
      let target = take path_max whole in
      if ltb 0 (length target) && ltb (length target) path_max then target else []
]

abbrev or_empty : Option (List ℕ) → List ℕ
or_empty none = []
or_empty (some text) = text

-- `storageSpeedForPath`, `volumeKeyForPath` and `volumeDeviceForPath` over one another. `none`: the
-- rounds of the scan run out.
module _ {K : Type 0} (same : K → K → Bool) (from_device : List ℕ → Option K)
    (query : K → Speed) where
  unfoldable pub speed_of_device :
      Option (List ℕ) → List (K × Speed) → Option (Speed × List (K × Speed))
  unfolding storage_speed_for_key
  speed_of_device none cache = none
  speed_of_device (some device) cache =
      some (storage_speed_for_key same query (volume_key from_device device) cache)

-- Linux.
pub record LinuxSystem : Type 0 where
  pub mountinfo : Option (List ℕ)
  pub absolute : List ℕ → Option (List ℕ)
  pub lexically_normal : List ℕ → List ℕ
  pub read_link : List ℕ → Option (List ℕ)
  pub scan_numbers : List ℕ → Option (ℕ × ℕ)
  pub makedev : ℕ → ℕ → ℕ
  pub major : ℕ → ℕ
  pub minor : ℕ → ℕ
  pub to_string : ℕ → List ℕ
  pub canonical : List ℕ → Option (List ℕ)
  pub parent_path : List ℕ → List ℕ
  pub first_character : List ℕ → Option ℕ

-- `currentMounts`
unfoldable pub linux_mounts : LinuxSystem → List Mount
unfolding parse_mount_info
linux_mounts os = parse_mount_info (or_empty os.mountinfo)

-- `volumeKeyFromDevice`
unfoldable pub linux_key : LinuxSystem → List ℕ → Option ℕ
linux_key os device = elim (os.scan_numbers device) as (λ _. Option ℕ) [
  | none ↦ none
  | some numbers ↦ some (os.makedev numbers.0 numbers.1)
]

-- The link that `queryVolumeSpeed` resolves, and the two files that it may read.
unfoldable pub sys_dev_link : LinuxSystem → ℕ → List ℕ
sys_dev_link os dev =
    codes "/sys/dev/block/"
    ++ os.to_string (os.major dev)
    ++ (b':' ∷ [])
    ++ os.to_string (os.minor dev)

abbrev pub rotational_in : LinuxSystem → List ℕ → Option ℕ
rotational_in os folder = os.first_character (folder ++ codes "/queue/rotational")

abbrev pub own_rotational : LinuxSystem → Option (List ℕ) → Option ℕ
own_rotational os none = none
own_rotational os (some device_path) = rotational_in os device_path

abbrev pub parent_rotational : LinuxSystem → Option (List ℕ) → Option ℕ
parent_rotational os none = none
parent_rotational os (some device_path) = rotational_in os (os.parent_path device_path)

-- `queryVolumeSpeed`
unfoldable pub linux_query : LinuxSystem → ℕ → Speed
unfolding query_linux sys_dev_link
linux_query os dev =
    let device_path = os.canonical (sys_dev_link os dev) in
    query_linux device_path (own_rotational os device_path) (parent_rotational os device_path)

abbrev pub same_dev : ℕ → ℕ → Bool
same_dev a b = a == b

-- `storageSpeedForPath`, with the cache; `systemFirmlinks` is empty.
unfoldable pub linux_speed :
    LinuxSystem → List ℕ → List (ℕ × Speed) → Option (Speed × List (ℕ × Speed))
unfolding linux_mounts symlink_target linux_key linux_query volume_device_for_path speed_of_device
linux_speed os path cache =
    speed_of_device same_dev (linux_key os) (linux_query os)
      (volume_device_for_path (linux_mounts os) [] os.lexically_normal (symlink_target os.read_link)
        (os.absolute path))
      cache

-- macOS. An entry that `getfsstat` fills in.
pub record Statfs : Type 0 where
  pub mnt_on_name : List ℕ
  pub mnt_from_name : List ℕ
  pub fs_type_name : List ℕ
  pub is_mnt_local : Bool

-- What a value in a dictionary is: a string, in UTF-8, or another object; and what a property of the
-- registry is.
pub data Value : Type 0 where
  string_value : List ℕ → Value
  other_value : Value

pub data Property : Type 0 where
  dictionary : (List ℕ → Option Value) → Property
  other_property : Property

-- `getfsstat` gives the number of mounts, `none` where it fails, and then fills in entries, as many as
-- there is room for.
pub record MacSystem : Type 0 where
  pub firmlinks_text : Option (List ℕ)
  pub mount_count : Option ℕ
  pub getfsstat : ℕ → List Statfs
  pub absolute : List ℕ → Option (List ℕ)
  pub lexically_normal : List ℕ → List ℕ
  pub read_link : List ℕ → Option (List ℕ)
  pub matching_service : List ℕ → Option ℕ
  pub search_property : ℕ → List ℕ → Option Property

-- `systemFirmlinks`
unfoldable pub system_firmlinks : MacSystem → List Firmlink
unfolding parse_firmlinks
system_firmlinks os = parse_firmlinks (or_empty os.firmlinks_text) (codes "/System/Volumes/Data")

unfoldable pub mac_mount : List Firmlink → Statfs → Mount
unfolding canonical_path
mac_mount firmlinks fs = record {
  mount_point = canonical_path fs.mnt_on_name firmlinks;
  device = fs.mnt_from_name;
  local = fs.is_mnt_local && not (bytes_eq fs.fs_type_name (codes "autofs"));
}

-- `currentMounts`, with room for eight mounts more.
unfoldable pub mac_mounts : MacSystem → List Firmlink → List Mount
unfolding mac_mount
mac_mounts os firmlinks = elim os.mount_count as (λ _. List Mount) [
  | none ↦ []
  | some count ↦ if count == 0 then [] else map (mac_mount firmlinks) (os.getfsstat (count + 8))
]

-- `registryCharacteristic`; a string that does not fit into 64 bytes with its end is not read.
abbrev pub string_of : Option Value → List ℕ
string_of (some (string_value text)) = if ltb (length text) 64 then text else []
string_of _ = []

unfoldable pub registry_characteristic : MacSystem → ℕ → List ℕ → List ℕ → List ℕ
registry_characteristic os media dict_key property_key =
    elim (os.search_property media dict_key) as (λ _. List ℕ) [
      | none ↦ []
      | some property ↦ elim property as (λ _. List ℕ) [
        | other_property ↦ []
        | dictionary value ↦ string_of (value property_key)
      ]
    ]

abbrev pub characteristic : MacSystem → Option ℕ → List ℕ → List ℕ → List ℕ
unfolding registry_characteristic
characteristic os none dict_key property_key = []
characteristic os (some media) dict_key property_key =
    registry_characteristic os media dict_key property_key

abbrev pub is_some : Option ℕ → Bool
is_some none = false
is_some (some n) = true

-- `queryVolumeSpeed`
unfoldable pub mac_query : MacSystem → List ℕ → Speed
unfolding query_macos characteristic
mac_query os device_name =
    let media = os.matching_service (drop 5 device_name) in
    query_macos device_name (is_some media)
      (characteristic os media (codes "Device Characteristics") (codes "Medium Type"))
      (characteristic os media (codes "Protocol Characteristics") (codes "Physical Interconnect"))

-- `storageSpeedForPath`, with the cache; a volume's key is its device.
unfoldable pub mac_speed :
    MacSystem → List ℕ → List (List ℕ × Speed) → Option (Speed × List (List ℕ × Speed))
unfolding mac_mounts system_firmlinks symlink_target mac_query volume_device_for_path
    speed_of_device
mac_speed os path cache =
    let firmlinks = system_firmlinks os in
    speed_of_device bytes_eq some (mac_query os)
      (volume_device_for_path (mac_mounts os firmlinks) firmlinks os.lexically_normal
        (symlink_target os.read_link) (os.absolute path))
      cache

-- `storageSpeedForPath` on other platforms.
abbrev pub speed_elsewhere : List ℕ → Speed
speed_elsewhere path = slow_or_unknown
