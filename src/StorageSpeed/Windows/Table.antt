-- ===== src/StorageSpeed/Windows/Table.antt =====
-- What a hit in the volume table is worth.
use cpputils.Base.{
  ℕ, ◌≤◌, ◌≡◌, refl, ◌⊎◌, inl, inr, List, [], ◌∷◌, some, Bool, true, false, arith, All, length,
  Option-cases, Bool-cases,
}
use mathlib.Core.Path.{subst}
use cpputils.StorageSpeed.Windows.{
  VolumeKey, VolumeMount, SystemCalls, equal_ignoring_case, has_path_prefix, find_mount, Found,
  missing, stale, valid, attempt, key_of, volume_key_from_mount_table, enumerate_volume_mounts,
}

-- The order that `std::sort` leaves.
abbrev pub IsDescending : List VolumeMount → Type 0
IsDescending [] = Unit
IsDescending (m ∷ mounts) = All (λ n. length n.path ≤ length m.path) mounts × IsDescending mounts

-- The entry holds the path, no longer entry does, and its mount point leads to its volume.
pub record IsCurrent (os : SystemCalls) (path : List ℕ) (mounts : List VolumeMount)
    (m : VolumeMount) : Type 0 where
  pub holds : has_path_prefix os path m.path ≡ true
  pub longest :
      All (λ n. has_path_prefix os path n.path ≡ true → length n.path ≤ length m.path) mounts
  pub again : Bool
  pub current : List ℕ
  pub named : os.volume_name again m.path ≡ some current
  pub same : equal_ignoring_case os m.guid_path current ≡ true

module _ (os : SystemCalls) (path : List ℕ) where
  All-longest :
      (m : VolumeMount) (mounts : List VolumeMount)
      → All (λ n. length n.path ≤ length m.path) mounts
      → All (λ n. has_path_prefix os path n.path ≡ true → length n.path ≤ length m.path) mounts
  All-longest m [] h = tt
  All-longest m (n ∷ mounts) (le, h) = ((λ _. le), All-longest m mounts h)

  -- The entry holds the path, and no longer one of the table does.
  abbrev Holds : VolumeMount → List VolumeMount → Type 0
  Holds m mounts =
      (has_path_prefix os path m.path ≡ true)
      × All (λ n. has_path_prefix os path n.path ≡ true → length n.path ≤ length m.path) mounts

  find_mount-longest :
      (mounts : List VolumeMount) (m : VolumeMount)
      → IsDescending mounts
      → find_mount os path mounts ≡ some m
      → Holds m mounts
  unfolding find_mount
  find_mount-longest [] m h e = ground arith
  find_mount-longest (n ∷ mounts) m (le, h) e = elim (Bool-cases (has_path_prefix os path n.path)) [
    | inl holds ↦
        let same : n ≡ m = ground arith in
        subst (λ k. Holds k (n ∷ mounts)) same
          (holds, ((λ _. omega arith), All-longest n mounts le))
    | inr other ↦
        let (holds, longest) = find_mount-longest mounts m h (ground arith) in
        (holds, ((λ e'. ground arith), longest))
  ]

  attempt-IsCurrent :
      (again : Bool) (mounts : List VolumeMount) (m : VolumeMount)
      → IsDescending mounts
      → attempt os again path mounts ≡ valid m
      → IsCurrent os path mounts m
  unfolding attempt
  attempt-IsCurrent again mounts m h e = elim (Option-cases (find_mount os path mounts)) [
    | inl none_here ↦ absurd (ground arith)
    | inr (n, found) ↦ elim (Option-cases (os.volume_name again n.path)) [
      | inl no_name ↦ absurd (ground arith)
      | inr (current, named) ↦
          let same_mount : n ≡ m = ground arith in
          let (holds, longest) = find_mount-longest mounts n h found in
          let v : IsCurrent os path mounts n = record {
            holds = holds;
            longest = longest;
            again = again;
            current = current;
            named = named;
            same = ground arith;
          } in
          subst (λ k. IsCurrent os path mounts k) same_mount v
    ]
  ]

  Found-cases : (f : Found) → ((m : VolumeMount) × (f ≡ valid m)) ⊎ ((f ≡ missing) ⊎ (f ≡ stale))
  Found-cases missing = inr (inl refl)
  Found-cases stale = inr (inr refl)
  Found-cases (valid m) = inl (m, refl)

  -- A key from the volume table, be it the old one or the refreshed one, is that of an entry in the
  -- table as it is then whose mount point holds the path, is the longest that does, and was found to
  -- lead to the entry's volume, if the tables are sorted as `std::sort` leaves them.
  pub table_key-IsCurrent :
      (mounts mounts' : List VolumeMount) (key : VolumeKey)
      → ((ms : List VolumeMount) → IsDescending (os.sorted ms))
      → IsDescending mounts
      → volume_key_from_mount_table os path mounts ≡ (some key, mounts')
      → (m : VolumeMount) × (key ≡ key_of m) × IsCurrent os path mounts' m
  unfolding volume_key_from_mount_table enumerate_volume_mounts
  table_key-IsCurrent mounts mounts' key sorts h e =
      elim (Found-cases (attempt os false path mounts)) [
        | inl (m, hit) ↦
            let same : mounts ≡ mounts' = ground arith in
            let v = attempt-IsCurrent false mounts m h hit in
            (m, ground arith, subst (λ ms. IsCurrent os path ms m) same v)
        | inr (inl none_here) ↦ absurd (ground arith)
        | inr (inr old) ↦ elim (Found-cases (attempt os true path (enumerate_volume_mounts os))) [
          | inl (m, hit) ↦
              let same : enumerate_volume_mounts os ≡ mounts' = ground arith in
              let v = attempt-IsCurrent true (enumerate_volume_mounts os) m (sorts _) hit in
              (m, ground arith, subst (λ ms. IsCurrent os path ms m) same v)
          | inr (inl none_here) ↦ absurd (ground arith)
          | inr (inr still) ↦ absurd (ground arith)
        ]
      ]
