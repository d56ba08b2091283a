-- ===== src/StorageSpeed/Lookup/Mac.antt =====
-- `storageSpeedForPath` on macOS: when it says that a path is fast.
use mathlib.Core.Path.{fun_ext}
use cpputils.Base.{
  ℕ, zero, suc, ◌+◌, ◌≡◌, ◌==◌, ◌&&◌, not, refl, sym, ◌∙◌, ap, List, [], none, some, Bool, true,
  false, arith, map, bytes_eq, bytes_eq→eq, codes, if◌then◌else◌, Option-cases, inl, inr,
}
use cpputils.StorageSpeed.{Mount, Firmlink, Speed, fast_random_access, canonical_path}
use cpputils.StorageSpeed.Tables.{volume_device_for_path}
use cpputils.StorageSpeed.Lookup.{
  symlink_target, MacSystem, Statfs, mac_mount, mac_mounts, mac_query, mac_speed, system_firmlinks,
  speed_of_device,
}
use cpputils.StorageSpeed.Lookup.Registry.{IsInternalMac, query-IsInternalMac, IsInternalMac-query}
use cpputils.StorageSpeed.Lookup.Fast.{
  IsSound, IsPlaced, IsRight, IsPlaced-device, device-returns, speed_of_device-IsRight,
  speed_of_device-query,
}

-- The mounts that the system lists. An automounter's mount is not local, whatever its flags say.
abbrev listed : List Firmlink → Statfs → Mount
listed firmlinks fs = record {
  mount_point = canonical_path fs.mnt_on_name firmlinks;
  device = fs.mnt_from_name;
  local = if bytes_eq fs.fs_type_name (codes "autofs") then false else fs.is_mnt_local;
}

abbrev pub listed_mounts : MacSystem → List Firmlink → List Mount
listed_mounts os firmlinks = elim os.mount_count as (λ _. List Mount) [
  | none ↦ []
  | some zero ↦ []
  | some (suc n) ↦ map (listed firmlinks) (os.getfsstat (suc n + 8))
]

local_lem :
    (on_host automatic : Bool) → (on_host && not automatic) ≡ (if automatic then false else on_host)
local_lem true true = refl
local_lem true false = refl
local_lem false true = refl
local_lem false false = refl

mac_mount_lem :
    (firmlinks : List Firmlink) (fs : Statfs) → mac_mount firmlinks fs ≡ listed firmlinks fs
unfolding mac_mount
mac_mount_lem firmlinks fs =
    ap
      (λ l. record {
        mount_point = canonical_path fs.mnt_on_name firmlinks;
        device = fs.mnt_from_name;
        local = l;
      })
      (local_lem fs.is_mnt_local (bytes_eq fs.fs_type_name (codes "autofs")))

mac_mounts_lem :
    (os : MacSystem) (firmlinks : List Firmlink)
    → mac_mounts os firmlinks ≡ listed_mounts os firmlinks
unfolding mac_mounts
mac_mounts_lem os firmlinks = elim (Option-cases os.mount_count) [
  | inl failed ↦ rw (mac_mounts, failed) refl
  | inr (zero, e) ↦ rw (mac_mounts, e) refl
  | inr (suc n, e) ↦
      let some_mounts : (suc n == 0) ≡ false = ground arith in
      rw (mac_mounts, e)
        (ap (λ b. if b then [] else map (mac_mount firmlinks) (os.getfsstat (suc n + 8)))
            some_mounts
          ∙ ap (λ f. map f (os.getfsstat (suc n + 8))) (fun_ext (mac_mount_lem firmlinks)))
]

-- The mount on which a path is found.
abbrev pub IsOnMac : MacSystem → List ℕ → Mount → Type 0
IsOnMac os path =
    let firmlinks = system_firmlinks os in
    IsPlaced (listed_mounts os firmlinks) firmlinks os.lexically_normal
      (symlink_target os.read_link) (os.absolute path)

mac_speed-IsRight :
    (os : MacSystem) (path : List ℕ) (cache : List (List ℕ × Speed))
    → IsSound (mac_query os) cache
    → IsRight bytes_eq some (mac_query os) bytes_eq→eq (IsOnMac os path) (mac_speed os path cache)
unfolding mac_speed
mac_speed-IsRight os path cache sound =
    let firmlinks = system_firmlinks os in
    let (device, e, placed) =
      device-returns (listed_mounts os firmlinks) firmlinks os.lexically_normal
        (symlink_target os.read_link) (os.absolute path) in
    rw (mac_speed, mac_mounts_lem os firmlinks, e)
      (speed_of_device-IsRight bytes_eq some (mac_query os) bytes_eq→eq (IsOnMac os path) device
        cache placed sound)

-- `storageSpeedForPath` answers on macOS that a path is fast just where the path is on a mount whose
-- device says of itself that it is solid-state and how it is attached, not by USB. (The cache has
-- what the query says.)
pub mac_speed-IsFast :
    (os : MacSystem) (path : List ℕ) (cache cache' : List (List ℕ × Speed)) (speed : Speed)
    → IsSound (mac_query os) cache
    → mac_speed os path cache ≡ some (speed, cache')
    → (speed ≡ fast_random_access
        → (mount : Mount) × IsOnMac os path mount × IsInternalMac os mount.device)
      × ((mount : Mount)
          → IsOnMac os path mount
          → IsInternalMac os mount.device
          → speed ≡ fast_random_access)
unfolding mac_speed
mac_speed-IsFast os path cache cache' speed sound h = (
  λ says_fast.
      let (speed', left, returned, sound', fast) = mac_speed-IsRight os path cache sound in
      let is_fast = fast (ground arith) in
      let keyed : is_fast.mount.device ≡ is_fast.key = ground (arith, is_fast.keyed) in
      (
        is_fast.mount,
        is_fast.on,
        query-IsInternalMac os is_fast.mount.device (ap (mac_query os) keyed ∙ is_fast.answered),
      ),
  λ mount on internal.
      let firmlinks = system_firmlinks os in
      let placed =
        IsPlaced-device (listed_mounts os firmlinks) firmlinks os.lexically_normal
          (symlink_target os.read_link) (os.absolute path) mount on in
      let nonempty : ¬ (mount.device ≡ []) = λ empty. absurd (ground (arith, internal.named)) in
      speed_of_device-query bytes_eq some (mac_query os) bytes_eq→eq mount.device mount.device cache
        cache' speed nonempty refl sound
        (sym (
            ap
              (λ mounts.
                speed_of_device bytes_eq some (mac_query os)
                  (volume_device_for_path mounts firmlinks os.lexically_normal
                    (symlink_target os.read_link) (os.absolute path))
                  cache)
              (mac_mounts_lem os firmlinks)
            ∙ ap (λ d. speed_of_device bytes_eq some (mac_query os) d cache) placed)
          ∙ h)
      ∙ IsInternalMac-query os mount.device internal,
)
