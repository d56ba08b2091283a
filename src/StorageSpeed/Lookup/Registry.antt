-- ===== src/StorageSpeed/Lookup/Registry.antt =====
-- What the registry of macOS says of a device, and what `queryVolumeSpeed` makes of it.
use cpputils.Base.{
  ℕ, ◌<◌, ◌≡◌, ◌≢◌, not, ltb, ◌||◌, ap₂, ◌∷◌, refl, sym, ◌∙◌, ap, List, [], ◌++◌, Option, none,
  some, true, false, arith, length, bytes_eq, bytes_eq→eq, codes, drop, if◌then◌else◌, Bool-cases,
  Option-cases, inl, inr, starts_with,
}
use cpputils.StorageSpeed.{fast_random_access, slow_or_unknown}
use cpputils.StorageSpeed.Devices.{
  query_macos, query_volume_speed, macos, fast-IsInternal, starts_with-rest,
}
use cpputils.StorageSpeed.Lookup.{
  MacSystem, Property, dictionary, other_property, Value, string_value, other_value, string_of,
  mac_query, registry_characteristic, characteristic, is_some,
}

-- The device is a media object of the registry. The medium type of its device characteristics is
-- "Solid State", and the physical interconnect of its protocol characteristics is a text of less than
-- 64 bytes that is neither empty nor "USB".
pub record IsInternalMac (os : MacSystem) (device : List ℕ) : Type 0 where
  pub name : List ℕ
  pub media : ℕ
  pub device_values : List ℕ → Option Value
  pub protocol_values : List ℕ → Option Value
  pub interconnect : List ℕ
  pub named : device ≡ codes "/dev/" ++ name
  pub registered : os.matching_service name ≡ some media
  pub described :
      os.search_property media (codes "Device Characteristics") ≡ some (dictionary device_values)
  pub solid : device_values (codes "Medium Type") ≡ some (string_value (codes "Solid State"))
  pub attached :
      os.search_property media (codes "Protocol Characteristics")
      ≡ some (dictionary protocol_values)
  pub by : protocol_values (codes "Physical Interconnect") ≡ some (string_value interconnect)
  pub short : length interconnect < 64
  pub given : interconnect ≢ []
  pub not_usb : interconnect ≢ codes "USB"

string_of-some :
    (value : Option Value)
    → string_of value ≢ []
    → (value ≡ some (string_value (string_of value))) × (length (string_of value) < 64)
string_of-some none ne = absurd (ne refl)
string_of-some (some other_value) ne = absurd (ne refl)
string_of-some (some (string_value text)) ne = elim (Bool-cases (ltb (length text) 64)) [
  | inl short ↦ (ground arith, ground arith)
  | inr long ↦ absurd (ne (ground arith))
]

module _ (os : MacSystem) (media : ℕ) (dict_key property_key : List ℕ) where
  -- A characteristic that is not empty is in the dictionary.
  abbrev IsRead : List ℕ → Type 0
  IsRead text =
      (values : List ℕ → Option Value) × (os.search_property media dict_key
        ≡ some (dictionary values))
      × (values property_key ≡ some (string_value text))
      × (length text < 64)

  property-IsRead :
      (property : Property)
      → os.search_property media dict_key ≡ some property
      → registry_characteristic os media dict_key property_key ≢ []
      → IsRead (registry_characteristic os media dict_key property_key)
  unfolding registry_characteristic
  property-IsRead other_property e = rw (registry_characteristic, e) (λ ne. absurd (ne refl))
  property-IsRead (dictionary values) e =
      rw (registry_characteristic, e)
        (λ ne.
          let (there, short) = string_of-some (values property_key) ne in
          (values, refl, there, short))

  characteristic-IsRead :
      registry_characteristic os media dict_key property_key ≢ []
      → IsRead (registry_characteristic os media dict_key property_key)
  unfolding registry_characteristic
  characteristic-IsRead ne = elim (Option-cases (os.search_property media dict_key)) [
    | inl missing ↦ absurd (ne (rw (registry_characteristic, missing) refl))
    | inr (property, e) ↦ property-IsRead property e ne
  ]

-- Of a device that is registered, both characteristics are read.
mac_query-registered :
    (os : MacSystem) (device : List ℕ) (media : ℕ)
    → os.matching_service (drop 5 device) ≡ some media
    → mac_query os device
      ≡ query_macos device true
          (registry_characteristic os media (codes "Device Characteristics") (codes "Medium Type"))
          (registry_characteristic os media
            (codes "Protocol Characteristics")
            (codes "Physical Interconnect"))
unfolding mac_query
mac_query-registered os device media e =
    ap
      (λ m.
        query_macos device (is_some m)
          (characteristic os m (codes "Device Characteristics") (codes "Medium Type"))
          (characteristic os m (codes "Protocol Characteristics") (codes "Physical Interconnect")))
      e

mac_query-unregistered :
    (os : MacSystem) (device : List ℕ)
    → os.matching_service (drop 5 device) ≡ none
    → mac_query os device ≡ slow_or_unknown
unfolding mac_query query_macos
mac_query-unregistered os device e =
    let no_media : (not (starts_with device (codes "/dev/")) || not false) ≡ true = ground arith in
    ap
      (λ m.
        query_macos device (is_some m)
          (characteristic os m (codes "Device Characteristics") (codes "Medium Type"))
          (characteristic os m (codes "Protocol Characteristics") (codes "Physical Interconnect")))
      e
    ∙ ap (λ b. if b then slow_or_unknown else slow_or_unknown) no_media

registry_characteristic-dictionary :
    (os : MacSystem) (media : ℕ) (dict_key property_key text : List ℕ)
    (values : List ℕ → Option Value)
    → os.search_property media dict_key ≡ some (dictionary values)
    → values property_key ≡ some (string_value text)
    → length text < 64
    → registry_characteristic os media dict_key property_key ≡ text
unfolding registry_characteristic
registry_characteristic-dictionary os media dict_key property_key text values e there short =
    let fits : ltb (length text) 64 ≡ true = ground arith in
    rw (registry_characteristic, e) (ap string_of there ∙ ap (λ b. if b then text else []) fits)

query_macos-solid :
    (name interconnect : List ℕ)
    → interconnect ≢ []
    → bytes_eq interconnect (codes "USB") ≡ false
    → query_macos (codes "/dev/" ++ name) true (codes "Solid State") interconnect
      ≡ fast_random_access
unfolding query_macos
query_macos-solid name [] given other = absurd (given refl)
query_macos-solid name (c ∷ cs) given other =
    ap (λ b. if not b then fast_random_access else slow_or_unknown) other

pub query-IsInternalMac :
    (os : MacSystem) (device : List ℕ)
    → mac_query os device ≡ fast_random_access
    → IsInternalMac os device
unfolding mac_query query_volume_speed characteristic
query-IsInternalMac os device fast = elim (Option-cases (os.matching_service (drop 5 device))) [
  | inl unregistered ↦ absurd (ground (arith, mac_query-unregistered os device unregistered))
  | inr (media, registered) ↦
      let medium : List ℕ =
        registry_characteristic os media (codes "Device Characteristics") (codes "Medium Type") in
      let interconnect : List ℕ =
        registry_characteristic os media (codes "Protocol Characteristics")
          (codes "Physical Interconnect") in
      let told : query_macos device true medium interconnect ≡ fast_random_access =
        sym (mac_query-registered os device media registered) ∙ fast in
      let (starts, _, solid, given, not_usb) =
        fast-IsInternal (macos device true medium interconnect) told in
      let (rest, named) = starts_with-rest device (codes "/dev/") starts in
      let (device_values, described, type, _) =
        characteristic-IsRead os media (codes "Device Characteristics") (codes "Medium Type")
          (λ empty. absurd (ground (arith, sym solid ∙ empty))) in
      let (protocol_values, attached, by, short) =
        characteristic-IsRead os media (codes "Protocol Characteristics")
          (codes "Physical Interconnect") given in
      record {
        name = rest;
        media = media;
        device_values = device_values;
        protocol_values = protocol_values;
        interconnect = interconnect;
        named = named;
        registered = sym (ap (λ d. os.matching_service (drop 5 d)) named) ∙ registered;
        described = described;
        solid = type ∙ ap (λ text. some (string_value text)) solid;
        attached = attached;
        by = by;
        short = short;
        given = given;
        not_usb = not_usb;
      }
]

pub IsInternalMac-query :
    (os : MacSystem) (device : List ℕ)
    → IsInternalMac os device
    → mac_query os device ≡ fast_random_access
IsInternalMac-query os device v =
    let other : bytes_eq v.interconnect (codes "USB") ≡ false =
      elim (Bool-cases (bytes_eq v.interconnect (codes "USB"))) [
        | inl usb ↦ absurd (v.not_usb (bytes_eq→eq v.interconnect (codes "USB") usb))
        | inr other ↦ other
      ] in
    ap (mac_query os) v.named
    ∙ mac_query-registered os (codes "/dev/" ++ v.name) v.media v.registered
    ∙ ap₂ (query_macos (codes "/dev/" ++ v.name) true)
        (registry_characteristic-dictionary os v.media (codes "Device Characteristics")
          (codes "Medium Type") (codes "Solid State") v.device_values v.described v.solid
          (omega arith))
        (registry_characteristic-dictionary os v.media (codes "Protocol Characteristics")
          (codes "Physical Interconnect") v.interconnect v.protocol_values v.attached v.by v.short)
    ∙ query_macos-solid v.name v.interconnect v.given other
