-- ===== src/StorageSpeed/Devices.antt =====
-- system/storagespeed.cpp, `queryVolumeSpeed` on each platform. What the system says of the volume
-- and its device is an argument; `none`: the query fails.
use cpputils.Base.{
  ℕ, ◌≡◌, refl, ◌≢◌, List, [], ◌∷◌, Option, none, some, Bool, true, false, not, ◌==◌, ◌&&◌, ◌||◌,
  arith, if◌then◌else◌, codes, bytes_eq, bytes_eq→eq, bytes_eq_refl, ap, ap₂, ◌∙◌, ◌++◌, Bool-cases,
  ◌⊎◌, inl, inr, starts_with,
}
use cpputils.StorageSpeed.{Speed, fast_random_access, slow_or_unknown}
use cpputils.StorageSpeed.Windows.{DriveType, drive_fixed, drive_ramdisk, drive_other, VolumeKey}

abbrev without_backslash : List ℕ → List ℕ
without_backslash [] = []
without_backslash (c ∷ []) = if c == 92 then [] else c ∷ []
without_backslash (c ∷ d ∷ cs) = c ∷ without_backslash (d ∷ cs)

abbrev is_nil : List ℕ → Bool
is_nil [] = true
is_nil _ = false

-- Windows: the handle of the volume, whether its device incurs a seek penalty, and whether its bus
-- is USB.
pub record WindowsDevice : Type 0 where
  pub seek_penalty : Option Bool
  pub usb : Option Bool

abbrev is_answer : Bool → Option Bool → Bool
is_answer b none = false
is_answer b (some a) = if b then a else not a

unfoldable query_device : Option WindowsDevice → Speed
query_device none = slow_or_unknown
query_device (some d) =
    if is_answer false d.seek_penalty && is_answer false d.usb
    then fast_random_access
    else slow_or_unknown

unfoldable query_windows :
    (List ℕ → DriveType) → (List ℕ → Option WindowsDevice) → VolumeKey → Speed
unfolding query_device
query_windows drive_type open_volume volume = elim (drive_type volume.mount_path) [
  | drive_ramdisk ↦ fast_random_access
  | drive_other ↦ slow_or_unknown
  | drive_fixed ↦
      if is_nil volume.guid_path
      then slow_or_unknown
      else query_device (open_volume (without_backslash volume.guid_path))
]

-- `find(...) != npos`
unfoldable pub has_text : List ℕ → List ℕ → Bool
has_text [] text = starts_with [] text
has_text (c ∷ cs) text = starts_with (c ∷ cs) text || has_text cs text

abbrev by_rotational : ℕ → Speed
by_rotational c = if c == b'0' then fast_random_access else slow_or_unknown

-- Linux: the canonical path of the block device, and the first character of `queue/rotational` of the
-- device and of its parent.
unfoldable pub query_linux : Option (List ℕ) → Option ℕ → Option ℕ → Speed
unfolding has_text
query_linux none own parent = slow_or_unknown
query_linux (some device_path) own parent =
    if has_text device_path (codes "/usb") then slow_or_unknown else elim own [
      | some c ↦ by_rotational c
      | none ↦ elim parent [ none ↦ slow_or_unknown | some c ↦ by_rotational c ]
    ]

-- macOS: whether there is a media object for the device, its medium type and its interconnect.
unfoldable pub query_macos : List ℕ → Bool → List ℕ → List ℕ → Speed
query_macos device_name has_media medium_type interconnect =
    if not (starts_with device_name (codes "/dev/")) || not has_media
    then slow_or_unknown
    else (if bytes_eq medium_type (codes "Solid State")
          && not (is_nil interconnect)
          && not (bytes_eq interconnect (codes "USB"))
        then fast_random_access
        else slow_or_unknown)

-- What `queryVolumeSpeed` is given on each platform.
pub data Query : Type 0 where
  windows : (List ℕ → DriveType) → (List ℕ → Option WindowsDevice) → VolumeKey → Query
  linux : Option (List ℕ) → Option ℕ → Option ℕ → Query
  macos : List ℕ → Bool → List ℕ → List ℕ → Query

unfoldable pub query_volume_speed : Query → Speed
unfolding query_windows query_linux query_macos
query_volume_speed (windows drive_type open_volume volume) =
    query_windows drive_type open_volume volume
query_volume_speed (linux path own parent) = query_linux path own parent
query_volume_speed (macos name media medium_type interconnect) =
    query_macos name media medium_type interconnect

-- A RAM disk, or a device that answers that it is solid-state and not on USB.
abbrev pub IsInternal : Query → Type 0
IsInternal (windows drive_type open_volume volume) =
    (drive_type volume.mount_path ≡ drive_ramdisk)
    ⊎ ((d : WindowsDevice) × (drive_type volume.mount_path ≡ drive_fixed)
        × (open_volume (without_backslash volume.guid_path) ≡ some d)
        × (d.seek_penalty ≡ some false)
        × (d.usb ≡ some false))
IsInternal (linux path own parent) =
    (p : List ℕ) × (path ≡ some p)
    × (has_text p (codes "/usb") ≡ false)
    × ((own ≡ some b'0') ⊎ ((own ≡ none) × (parent ≡ some b'0')))
IsInternal (macos name media medium_type interconnect) =
    (starts_with name (codes "/dev/") ≡ true)
    × (media ≡ true)
    × (medium_type ≡ codes "Solid State")
    × (interconnect ≢ [])
    × (interconnect ≢ codes "USB")

device_internal :
    (o : Option WindowsDevice)
    → query_device o ≡ fast_random_access
    → (d : WindowsDevice) × (o ≡ some d) × (d.seek_penalty ≡ some false) × (d.usb ≡ some false)
unfolding query_device
device_internal none e = ground arith
device_internal (some d) e = (d, refl, ground arith, ground arith)

windows-IsInternal :
    (drive_type : List ℕ → DriveType) (open_volume : List ℕ → Option WindowsDevice) (v : VolumeKey)
    (t : DriveType)
    → drive_type v.mount_path ≡ t
    → query_windows drive_type open_volume v ≡ fast_random_access
    → IsInternal (windows drive_type open_volume v)
unfolding query_windows
windows-IsInternal drive_type open_volume v drive_ramdisk at e = inl at
windows-IsInternal drive_type open_volume v drive_other at e = absurd (ground arith)
windows-IsInternal drive_type open_volume v drive_fixed at e =
    let (d, opened, seek, usb) =
      device_internal (open_volume (without_backslash v.guid_path)) (ground arith) in
    inr (d, at, opened, seek, usb)

pub linux-IsInternal :
    (path : Option (List ℕ)) (own parent : Option ℕ)
    → query_linux path own parent ≡ fast_random_access
    → IsInternal (linux path own parent)
unfolding query_linux
linux-IsInternal none own parent e = absurd (ground arith)
linux-IsInternal (some p) none none e = absurd (ground arith)
linux-IsInternal (some p) none (some c) e = (p, refl, ground arith, inr (refl, ground arith))
linux-IsInternal (some p) (some c) parent e = (p, refl, ground arith, inl (ground arith))

pub IsInternal-linux :
    (path : Option (List ℕ)) (own parent : Option ℕ)
    → IsInternal (linux path own parent)
    → query_linux path own parent ≡ fast_random_access
unfolding query_linux
IsInternal-linux path own parent (p, at, no_usb, inl still) = rw (at, still, no_usb) refl
IsInternal-linux path own parent (p, at, no_usb, inr (unread, still)) =
    rw (at, unread, still, no_usb) refl

-- A volume is taken for fast only if it is a RAM disk, or an internal device that says of itself that
-- it has no seek penalty, does not rotate or is solid-state, and that is not on USB; whenever a
-- query fails the volume is not taken for fast.
pub fast-IsInternal : (q : Query) → query_volume_speed q ≡ fast_random_access → IsInternal q
unfolding query_volume_speed
fast-IsInternal (windows drive_type open_volume v) e =
    windows-IsInternal drive_type open_volume v (drive_type v.mount_path) refl e
fast-IsInternal (linux path own parent) e = linux-IsInternal path own parent e
fast-IsInternal (macos name media medium_type interconnect) e = (
  ground arith,
  ground arith,
  ground (arith, bytes_eq→eq medium_type (codes "Solid State")),
  (λ empty. ground arith),
  λ usb. ground (arith, bytes_eq_refl interconnect, ap (bytes_eq interconnect) usb),
)

-- A text occurs in another.
abbrev pub HasText : List ℕ → List ℕ → Type 0
HasText cs text = (before : List ℕ) × (after : List ℕ) × (cs ≡ before ++ (text ++ after))

pub starts_with-rest :
    (cs text : List ℕ) → starts_with cs text ≡ true → (after : List ℕ) × (cs ≡ text ++ after)
starts_with-rest cs [] h = (cs, refl)
starts_with-rest [] (d ∷ text) h = absurd (ground arith)
starts_with-rest (c ∷ cs) (d ∷ text) h =
    let (after, e) = starts_with-rest cs text (ground arith) in
    let same : c ≡ d = ground arith in (after, ap₂ ◌∷◌ same e)

starts_with-append : (text after : List ℕ) → starts_with (text ++ after) text ≡ true
starts_with-append [] after = refl
starts_with-append (d ∷ text) after = ground (arith, starts_with-append text after)

pub has_text-HasText : (cs text : List ℕ) → has_text cs text ≡ true → HasText cs text
unfolding has_text
has_text-HasText [] text h = let (after, e) = starts_with-rest [] text h in ([], after, e)
has_text-HasText (c ∷ cs) text h = elim (Bool-cases (starts_with (c ∷ cs) text)) [
  | inl here ↦ let (after, e) = starts_with-rest (c ∷ cs) text here in ([], after, e)
  | inr not_here ↦
      let (before, after, e) = has_text-HasText cs text (ground arith) in
      (c ∷ before, after, ap (◌∷◌ c) e)
]

has_text-append : (before text after : List ℕ) → has_text (before ++ (text ++ after)) text ≡ true
unfolding has_text
has_text-append [] [] [] = refl
has_text-append [] [] (c ∷ after) = refl
has_text-append [] (d ∷ text) after = ground (arith, starts_with-append text after)
has_text-append (c ∷ before) text after = ground (arith, has_text-append before text after)

pub HasText-has_text : (cs text : List ℕ) → HasText cs text → has_text cs text ≡ true
HasText-has_text cs text (before, after, e) =
    ap (λ l. has_text l text) e ∙ has_text-append before text after
