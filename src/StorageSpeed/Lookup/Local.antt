-- ===== src/StorageSpeed/Lookup/Local.antt =====
-- `storageSpeedForPath` and links on remote mounts.
use cpputils.Base.{ℕ, ◌≡◌, refl, ap, List, [], Option, none, some, bytes_eq}
use cpputils.StorageSpeed.{Mount, Firmlink, Speed, canonical_path}
use cpputils.StorageSpeed.Links.{IsLocal, resolve-local_only}
use cpputils.StorageSpeed.Tables.{volume_device_for_path}
use cpputils.StorageSpeed.Lookup.{
  speed_of_device, symlink_target, LinuxSystem, linux_mounts, linux_key, linux_query, linux_speed,
  same_dev, MacSystem, mac_mounts, mac_query, mac_speed, system_firmlinks,
}

-- The links alone decide, where they are on local mounts.
symlink_target-agree :
    (read_link read_link' : List ℕ → Option (List ℕ)) (path : List ℕ)
    → read_link path ≡ read_link' path
    → symlink_target read_link path ≡ symlink_target read_link' path
unfolding symlink_target
symlink_target-agree read_link read_link' path same = rw (symlink_target, same) refl

module _ (mounts : List Mount) (firmlinks : List Firmlink) (lexically_normal : List ℕ → List ℕ)
    (read_link read_link' : List ℕ → Option (List ℕ))
    (agree : (prefix : List ℕ) → IsLocal mounts prefix → read_link prefix ≡ read_link' prefix) where
  device-local_only :
      (absolute : Option (List ℕ))
      → volume_device_for_path mounts firmlinks lexically_normal (symlink_target read_link) absolute
        ≡ volume_device_for_path mounts firmlinks lexically_normal
            (symlink_target read_link')
            absolute
  unfolding volume_device_for_path
  device-local_only none = refl
  device-local_only (some path) =
      rw
        (
          volume_device_for_path,
          resolve-local_only mounts firmlinks lexically_normal (symlink_target read_link)
              (symlink_target read_link')
              (λ prefix on. symlink_target-agree read_link read_link' prefix (agree prefix on))
              (canonical_path path firmlinks),
        )
        refl

-- What `readlink` would say of a path that does not lie on a local mount of the system's table has no
-- influence on the answer on Linux, nor on the cache.
pub linux_speed-local_only :
    (os : LinuxSystem) (read_link : List ℕ → Option (List ℕ)) (path : List ℕ)
    (cache : List (ℕ × Speed))
    → ((prefix : List ℕ)
        → IsLocal (linux_mounts os) prefix
        → os.read_link prefix ≡ read_link prefix)
    → linux_speed os path cache ≡ linux_speed (record os { read_link = read_link }) path cache
unfolding linux_speed linux_mounts linux_key linux_query
linux_speed-local_only os read_link path cache agree =
    ap (λ device. speed_of_device same_dev (linux_key os) (linux_query os) device cache)
      (device-local_only (linux_mounts os) [] os.lexically_normal os.read_link read_link agree
        (os.absolute path))

-- The same on macOS.
pub mac_speed-local_only :
    (os : MacSystem) (read_link : List ℕ → Option (List ℕ)) (path : List ℕ)
    (cache : List (List ℕ × Speed))
    → ((prefix : List ℕ)
        → IsLocal (mac_mounts os (system_firmlinks os)) prefix
        → os.read_link prefix ≡ read_link prefix)
    → mac_speed os path cache ≡ mac_speed (record os { read_link = read_link }) path cache
unfolding mac_speed mac_mounts system_firmlinks mac_query
mac_speed-local_only os read_link path cache agree =
    ap (λ device. speed_of_device bytes_eq some (mac_query os) device cache)
      (device-local_only (mac_mounts os (system_firmlinks os)) (system_firmlinks os)
        os.lexically_normal os.read_link read_link agree (os.absolute path))
