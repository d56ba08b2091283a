-- ===== src/StorageSpeed/Lookup/Linux.antt =====
-- `storageSpeedForPath` on Linux: it returns, and when it says that a path is fast.
use cpputils.Base.{ℕ, ◌≡◌, ◌++◌, ◌⊎◌, codes, List, [], none, some, true, ==_iff}
use cpputils.StorageSpeed.{Mount, Speed}
use cpputils.StorageSpeed.Devices.{HasText}
use cpputils.StorageSpeed.Lookup.{
  symlink_target, LinuxSystem, linux_mounts, linux_key, linux_query, linux_speed, same_dev,
}
use cpputils.StorageSpeed.Lookup.Fast.{
  IsSound, IsPlaced, IsRight, device-returns, speed_of_device-IsRight,
}

same_dev_eq : (a b : ℕ) → same_dev a b ≡ true → a ≡ b
same_dev_eq a b h = (==_iff a b).0 h

-- Linux: the mount on which a path is found, with links read as `symlinkTarget` does.
abbrev pub IsOnLinux : LinuxSystem → List ℕ → Mount → Type 0
IsOnLinux os path =
    IsPlaced (linux_mounts os) [] os.lexically_normal (symlink_target os.read_link)
      (os.absolute path)

linux_speed-IsRight :
    (os : LinuxSystem) (path : List ℕ) (cache : List (ℕ × Speed))
    → IsSound (linux_query os) cache
    → IsRight same_dev
        (linux_key os)
        (linux_query os)
        same_dev_eq
        (IsOnLinux os path)
        (linux_speed os path cache)
unfolding linux_speed
linux_speed-IsRight os path cache sound =
    let (device, e, placed) =
      device-returns (linux_mounts os) [] os.lexically_normal (symlink_target os.read_link)
        (os.absolute path) in
    rw (linux_speed, e)
      (speed_of_device-IsRight same_dev (linux_key os) (linux_query os) same_dev_eq
        (IsOnLinux os path) device cache placed sound)

-- A lookup on Linux returns, and leaves a cache that has what the query says, where it found one.
pub linux_speed-returns :
    (os : LinuxSystem) (path : List ℕ) (cache : List (ℕ × Speed))
    → IsSound (linux_query os) cache
    → (speed : Speed) × (cache' : List (ℕ × Speed)) × (linux_speed os path cache
        ≡ some (speed, cache'))
      × IsSound (linux_query os) cache'
linux_speed-returns os path cache sound =
    let (speed, cache', returned, sound', _) = linux_speed-IsRight os path cache sound in
    (speed, cache', returned, sound')

-- The file in which a disk says whether it rotates.
abbrev rotational_file : List ℕ → List ℕ
rotational_file folder = folder ++ codes "/queue/rotational"

-- `device` has the form major:minor, /sys/dev/block/major:minor leads to a folder in whose path there
-- is no "/usb", and the file of that folder, or where it cannot be read that of the folder around it,
-- begins with '0'.
pub record IsInternalDisk (os : LinuxSystem) (device : List ℕ) : Type 0 where
  pub major_number : ℕ
  pub minor_number : ℕ
  pub folder : List ℕ
  pub numbered : os.scan_numbers device ≡ some (major_number, minor_number)
  pub found :
      os.canonical (
        codes "/sys/dev/block/"
        ++ os.to_string major_number
        ++ codes ":"
        ++ os.to_string minor_number)
      ≡ some folder
  pub not_usb : ¬ HasText folder (codes "/usb")
  pub still :
      (os.first_character (rotational_file folder) ≡ some 48)
      ⊎ ((os.first_character (rotational_file folder) ≡ none)
          × (os.first_character (rotational_file (os.parent_path folder)) ≡ some 48))
