-- ===== src/StorageSpeed/Lookup/Fast.antt =====
-- What an answer of `storageSpeedForPath` rests on.
use mathlib.Core.Path.{subst}
use cpputils.Base.{
  ℕ, ◌≡◌, refl, sym, ◌∙◌, ap, List, [], ◌∷◌, Option, none, some, Bool, true, arith, All, All-append,
  Option-cases, Bool-cases, inl, inr,
}
use cpputils.StorageSpeed.{
  Mount, Firmlink, Speed, fast_random_access, canonical_path, mount_for_path,
  resolve_local_symlinks, cached, storage_speed_for_key,
}
use cpputils.StorageSpeed.Mounts.{IsChoice, mount_for_path-IsChoice, IsChoice-mount_for_path}
use cpputils.StorageSpeed.Links.{resolve-returns}
use cpputils.StorageSpeed.Tables.{volume_device_for_path, volume_key}
use cpputils.StorageSpeed.Lookup.{speed_of_device}

-- The cache has what the query says.
abbrev pub IsSound : {K : Type 0} → (K → Speed) → List (K × Speed) → Type 0
IsSound {K = K} query cache = All (λ (e : K × Speed). e.1 ≡ query e.0) cache

module _ {K : Type 0} (same : K → K → Bool) (query : K → Speed)
    (same_eq : (a b : K) → same a b ≡ true → a ≡ b) where
  cached-query :
      (key : K) (cache : List (K × Speed)) (speed : Speed)
      → IsSound query cache
      → cached same key cache ≡ some speed
      → speed ≡ query key
  cached-query key [] speed sound h = absurd (ground arith)
  cached-query key ((k, s) ∷ cache) speed sound h = elim (Bool-cases (same k key)) [
    | inl found ↦
        let queried : query k ≡ query key = ap query (same_eq k key found) in
        ground (arith, sound.0, queried)
    | inr passed ↦ cached-query key cache speed sound.1 (ground arith)
  ]

  -- The answer for a key, or for none, and the cache that is left.
  for_key-IsSound :
      (key : Option K) (cache : List (K × Speed))
      → IsSound query cache
      → let answer = storage_speed_for_key same query key cache in
        IsSound query answer.1
        × (answer.0 ≡ fast_random_access
            → (k : K) × (key ≡ some k) × (query k ≡ fast_random_access))
  unfolding storage_speed_for_key
  for_key-IsSound none cache sound = (sound, λ fast. absurd (ground arith))
  for_key-IsSound (some key) cache sound = elim (Option-cases (cached same key cache)) [
    | inl new ↦
        rw (storage_speed_for_key, new)
          (
            All-append (λ (e : K × Speed). e.1 ≡ query e.0) cache ((key, query key) ∷ []) sound
                (refl, tt),
            λ fast. (key, refl, fast),
          )
    | inr (speed, known) ↦
        rw (storage_speed_for_key, known)
          (sound, λ fast. (key, refl, sym (cached-query key cache speed sound known) ∙ fast))
  ]

volume_key-some :
    {K : Type 0} (from_device : List ℕ → Option K) (device : List ℕ) (key : K)
    → volume_key from_device device ≡ some key
    → (from_device device ≡ some key) × ¬ (device ≡ [])
volume_key-some from_device [] key h = absurd (ground arith)
volume_key-some from_device (c ∷ cs) key h = (h, λ e. ground arith)

module _ (mounts : List Mount) (firmlinks : List Firmlink) (lexically_normal : List ℕ → List ℕ)
    (target : List ℕ → List ℕ) where
  -- The mount on which a path is found: the path is made absolute and canonical, its links are
  -- followed, and `mount` is the one that holds what comes out.
  pub record IsPlaced (absolute : Option (List ℕ)) (mount : Mount) : Type 0 where
    pub path : List ℕ
    pub resolved : List ℕ
    pub made_absolute : absolute ≡ some path
    pub followed :
        resolve_local_symlinks mounts firmlinks lexically_normal target
          (canonical_path path firmlinks)
        ≡ some resolved
    pub choice : IsChoice mounts resolved (some mount)

  pub device-returns :
      (absolute : Option (List ℕ))
      → (device : List ℕ) × (volume_device_for_path mounts firmlinks lexically_normal target
            absolute
          ≡ some device)
        × (¬ (device ≡ []) → (mount : Mount) × IsPlaced absolute mount × (mount.device ≡ device))
  unfolding volume_device_for_path
  device-returns none = ([], refl, λ ne. absurd (ne refl))
  device-returns (some path) =
      let (resolved, followed) =
        resolve-returns mounts firmlinks lexically_normal target (canonical_path path firmlinks) in
      let choice = mount_for_path-IsChoice mounts resolved in
      elim (Option-cases (mount_for_path mounts resolved)) [
        | inl nowhere ↦
            rw (volume_device_for_path, followed, nowhere) ([], refl, λ ne. absurd (ne refl))
        | inr (mount, found) ↦
            let chosen : IsChoice mounts resolved (some mount) =
              subst (IsChoice mounts resolved) found choice in
            rw (volume_device_for_path, followed, found)
              (
                mount.device,
                refl,
                λ ne. (
                  mount,
                  record {
                    path = path;
                    resolved = resolved;
                    made_absolute = refl;
                    followed = followed;
                    choice = chosen;
                  },
                  refl,
                ),
              )
      ]

  -- The mount on which a path is found is the one whose device is looked up.
  pub IsPlaced-device :
      (absolute : Option (List ℕ)) (mount : Mount)
      → IsPlaced absolute mount
      → volume_device_for_path mounts firmlinks lexically_normal target absolute ≡ some mount.device
  unfolding volume_device_for_path
  IsPlaced-device absolute mount v =
      let chosen = IsChoice-mount_for_path mounts v.resolved mount v.choice in
      rw (v.made_absolute, volume_device_for_path, v.followed, chosen) refl

-- A path is fast: it is on a mount whose device has a key for which the query says so.
pub record IsFast {K : Type 0} (from_device : List ℕ → Option K) (query : K → Speed)
    (IsOn : Mount → Type 0) : Type 0 where
  pub mount : Mount
  pub on : IsOn mount
  pub key : K
  pub keyed : from_device mount.device ≡ some key
  pub answered : query key ≡ fast_random_access

module _ {K : Type 0} (same : K → K → Bool) (from_device : List ℕ → Option K) (query : K → Speed)
    (same_eq : (a b : K) → same a b ≡ true → a ≡ b) where
  -- What holds of the answer for a device.
  abbrev pub IsRight : (Mount → Type 0) → Option (Speed × List (K × Speed)) → Type 0
  IsRight IsOn answer =
      (speed : Speed) × (cache : List (K × Speed)) × (answer ≡ some (speed, cache))
      × IsSound query cache
      × (speed ≡ fast_random_access → IsFast from_device query IsOn)

  pub speed_of_device-IsRight :
      (IsOn : Mount → Type 0) (device : List ℕ) (cache : List (K × Speed))
      → (¬ (device ≡ []) → (mount : Mount) × IsOn mount × (mount.device ≡ device))
      → IsSound query cache
      → IsRight IsOn (speed_of_device same from_device query (some device) cache)
  unfolding speed_of_device
  speed_of_device-IsRight IsOn device cache placed sound =
      let (sound', fast_key) =
        for_key-IsSound same query same_eq (volume_key from_device device) cache sound in
      (
        _,
        _,
        refl,
        sound',
        λ fast.
            let (key, keyed, answered) = fast_key fast in
            let (from, ne) = volume_key-some from_device device key keyed in
            let (mount, on, same_device) = placed ne in
            record {
              mount = mount;
              on = on;
              key = key;
              keyed = ap from_device same_device ∙ from;
              answered = answered;
            },
      )

  -- The answer for a device that has a key is what the query says.
  pub speed_of_device-query :
      (device : List ℕ) (key : K) (cache cache' : List (K × Speed)) (speed : Speed)
      → ¬ (device ≡ [])
      → from_device device ≡ some key
      → IsSound query cache
      → speed_of_device same from_device query (some device) cache ≡ some (speed, cache')
      → speed ≡ query key
  unfolding speed_of_device storage_speed_for_key
  speed_of_device-query [] key cache cache' speed ne keyed sound h = absurd (ne refl)
  speed_of_device-query (c ∷ cs) key cache cache' speed ne keyed sound h =
      elim (Option-cases (cached same key cache)) [
        | inl new ↦ ground arith
        | inr (known, e) ↦ ground (arith, cached-query same query same_eq key cache known sound e)
      ]
