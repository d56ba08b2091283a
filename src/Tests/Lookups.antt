-- ===== src/Tests/Lookups.antt =====
-- system/storagespeed.cpp on Linux with two mounts, of which the second is remote, and on macOS.
use cpputils.Base.{
  ℕ, ◌+◌, ◌*◌, ◌≡◌, refl, List, [], ◌∷◌, ◌++◌, Option, none, some, Bool, true, false, arith, codes,
  bytes_eq, if◌then◌else◌, Bool-cases, inl, inr, bytes_eq→eq, ap, ◌∙◌,
}
use cpputils.StorageSpeed.{Mount, is_within_folder, mount_for_path, best, Speed, fast_random_access}
use cpputils.StorageSpeed.Links.{IsLocal}
use cpputils.StorageSpeed.Lookup.{
  LinuxSystem, linux_mounts, linux_query, linux_speed, MacSystem, dictionary, string_value,
  mac_speed,
}
use cpputils.StorageSpeed.Lookup.Fast.{IsSound}
use cpputils.StorageSpeed.Lookup.Linux.{linux_speed-returns}
use cpputils.StorageSpeed.Lookup.Mac.{IsOnMac, mac_speed-IsFast}
use cpputils.StorageSpeed.Lookup.Registry.{IsInternalMac}
use cpputils.StorageSpeed.Lookup.Local.{linux_speed-local_only}

abbrev is_nil : List ℕ → Bool
is_nil [] = true
is_nil (c ∷ cs) = false

abbrev host : LinuxSystem
host = record {
  mountinfo = some (
      codes "1 0 8:1 / / rw - ext4 x y"
      ++ (10 ∷ [])
      ++ codes "2 1 0:50 / /net rw - nfs x y"
      ++ (10 ∷ []));
  absolute = λ path. some path;
  lexically_normal = λ path. path;
  read_link = λ prefix. if bytes_eq prefix (codes "/a") then some (codes "/b") else none;
  scan_numbers = λ device. if is_nil device then none else some (8, 1);
  makedev = λ major minor. major * 256 + minor;
  major = λ dev. 8;
  minor = λ dev. 1;
  to_string = λ n. (n + b'0') ∷ [];
  canonical = λ link. some (codes "/sys/devices/pci/sda/sda1");
  parent_path = λ path. codes "/sys/devices/pci/sda";
  first_character = λ file. some b'0';
}

linux_speed-returns_example :
    (speed : Speed) × (cache' : List (ℕ × Speed)) × (linux_speed host (codes "/a/x") []
      ≡ some (speed, cache'))
    × IsSound (linux_query host) cache'
linux_speed-returns_example = linux_speed-returns host (codes "/a/x") [] tt

-- Another disk, on which the remote mount point is a link.
abbrev other_link : List ℕ → Option (List ℕ)
other_link prefix =
    if bytes_eq prefix (codes "/net") then some (codes "/b") else host.read_link prefix

net_is_remote :
    mount_for_path (linux_mounts host) (codes "/net")
    ≡ some (record { mount_point = codes "/net"; device = codes "0:50"; local = false })
unfolding mount_for_path best is_within_folder linux_mounts
net_is_remote = refl

links-agree :
    (prefix : List ℕ)
    → IsLocal (linux_mounts host) prefix
    → host.read_link prefix ≡ other_link prefix
links-agree prefix (m, on, is_local) = elim (Bool-cases (bytes_eq prefix (codes "/net"))) [
  | inr other ↦ ground arith
  | inl net ↦
      let same = bytes_eq→eq prefix (codes "/net") net in
      let there = ap (mount_for_path (linux_mounts host)) same ∙ net_is_remote in
      absurd (ground arith)
]

linux_speed-local_only_example :
    linux_speed host (codes "/net/x") []
    ≡ linux_speed (record host { read_link = other_link }) (codes "/net/x") []
linux_speed-local_only_example =
    linux_speed-local_only host other_link (codes "/net/x") [] links-agree

-- A Mac with one internal disk.
abbrev mac : MacSystem
mac = record {
  firmlinks_text = some (codes "/Users" ++ (9 ∷ []) ++ codes "Users");
  mount_count = some 1;
  getfsstat = λ room.
      record {
        mnt_on_name = codes "/System/Volumes/Data";
        mnt_from_name = codes "/dev/disk3s1";
        fs_type_name = codes "apfs";
        is_mnt_local = true;
      }
      ∷ [];
  absolute = λ path. some path;
  lexically_normal = λ path. path;
  read_link = λ prefix. none;
  matching_service = λ name. some 5;
  search_property = λ media dict_key. some (
      dictionary (λ key. some (
        string_value
          (if bytes_eq key (codes "Medium Type") then codes "Solid State" else codes "PCI"))));
}

abbrev disk : List (List ℕ × Speed)
disk = (codes "/dev/disk3s1", fast_random_access) ∷ []

mac_is_fast : mac_speed mac (codes "/Users/a") [] ≡ some (fast_random_access, disk)
unfolding mac_speed
mac_is_fast = refl

mac_speed-IsFast_example :
    (fast_random_access ≡ fast_random_access
      → (mount : Mount) × IsOnMac mac (codes "/Users/a") mount × IsInternalMac mac mount.device)
    × ((mount : Mount)
        → IsOnMac mac (codes "/Users/a") mount
        → IsInternalMac mac mount.device
        → fast_random_access ≡ fast_random_access)
mac_speed-IsFast_example =
    mac_speed-IsFast mac (codes "/Users/a") [] disk fast_random_access tt mac_is_fast
