-- ===== src/Tests/Drives.antt =====
-- system/storagespeed.cpp on Windows and Linux: one volume mounted at C:\, a RAM disk, and the tables
-- as texts.
use cpputils.Base.{
  ℕ, ◌≤◌, ◌≡◌, refl, List, [], ◌∷◌, some, leb, length, arith, All, bytes_eq, codes, if◌then◌else◌,
}
use cpputils.StorageSpeed.Windows.{
  VolumeKey, VolumeMount, SystemCalls, drive_fixed, drive_other, key_of,
  volume_key_from_mount_table,
}
use cpputils.StorageSpeed.Windows.Table.{IsDescending, IsCurrent, table_key-IsCurrent}
use cpputils.StorageSpeed.Tables.{parse_mount_info}
use cpputils.StorageSpeed.Tables.Readback.{
  MountEntry, FirmlinkEntry, written_all, mount_of, parse_mount_info-written,
}

-- An insertion sort stands for `std::sort`.
abbrev insert_mount : VolumeMount → List VolumeMount → List VolumeMount
insert_mount m [] = m ∷ []
insert_mount m (n ∷ ms) =
    if leb (length n.path) (length m.path) then m ∷ n ∷ ms else n ∷ insert_mount m ms

abbrev sort_mounts : List VolumeMount → List VolumeMount
sort_mounts [] = []
sort_mounts (m ∷ ms) = insert_mount m (sort_mounts ms)

AllBelow : ℕ → List VolumeMount → Type 0
AllBelow k ms = All (λ n. length n.path ≤ k) ms

AllBelow-grows : (j k : ℕ) (ms : List VolumeMount) → j ≤ k → AllBelow j ms → AllBelow k ms
unfolding AllBelow
AllBelow-grows j k [] le h = h
AllBelow-grows j k (n ∷ ms) le (h, hs) = (omega arith, AllBelow-grows j k ms le hs)

insert-AllBelow :
    (k : ℕ) (m : VolumeMount) (ms : List VolumeMount)
    → length m.path ≤ k
    → AllBelow k ms
    → AllBelow k (insert_mount m ms)
unfolding AllBelow
insert-AllBelow k m [] le h = (le, h)
insert-AllBelow k m (n ∷ ms) le h = ground (arith, insert-AllBelow k m ms)

insert-IsDescending :
    (m : VolumeMount) (ms : List VolumeMount) → IsDescending ms → IsDescending (insert_mount m ms)
unfolding AllBelow
insert-IsDescending m [] h = (h, h)
insert-IsDescending m (n ∷ ms) h = ground (
  arith,
  insert-IsDescending m ms,
  insert-AllBelow (length n.path) m ms,
  AllBelow-grows (length n.path) (length m.path) ms,
)

sort_mounts-IsDescending : (ms : List VolumeMount) → IsDescending (sort_mounts ms)
sort_mounts-IsDescending [] = tt
sort_mounts-IsDescending (m ∷ ms) =
    insert-IsDescending m (sort_mounts ms) (sort_mounts-IsDescending ms)

abbrev drive_c : List ℕ
drive_c = b'C' ∷ b':' ∷ 92 ∷ []

abbrev drives : SystemCalls
drives = record {
  equal_ordinal = bytes_eq;
  volume_name = λ again path. some (codes "new");
  drive_type = λ root. drive_fixed;
  volume_path = λ path. some drive_c;
  root_name = λ root. some (codes "new");
  volumes = record { guid_path = codes "new"; path_names = some (drive_c ∷ []) } ∷ [];
  sorted = sort_mounts;
}

abbrev stale_table : List VolumeMount
stale_table = record { path = drive_c; guid_path = codes "old" } ∷ []

abbrev file_on_c : List ℕ
file_on_c = b'C' ∷ b':' ∷ 92 ∷ b'f' ∷ []

table_key-IsCurrent_example :
    (m : VolumeMount) × (◌≡◌ {A = VolumeKey}
      (record { guid_path = codes "new"; mount_path = drive_c })
      (key_of m))
    × IsCurrent drives file_on_c (record { path = drive_c; guid_path = codes "new" } ∷ []) m
unfolding volume_key_from_mount_table
table_key-IsCurrent_example =
    table_key-IsCurrent drives file_on_c stale_table
      (record { path = drive_c; guid_path = codes "new" } ∷ [])
      (record { guid_path = codes "new"; mount_path = drive_c }) sort_mounts-IsDescending (tt, tt)
      refl

abbrev remote_drives : SystemCalls
remote_drives = record drives { drive_type = λ root. drive_other }

abbrev root_entry : MountEntry
root_entry = record {
  mount_id = codes "22";
  parent_id = codes "1";
  device = codes "8:1";
  root = codes "/";
  path = codes "/my disk";
  options = codes "rw";
  optional_fields = codes "shared:1" ∷ [];
  type = codes "ext4";
  rest = codes "/dev/sda1" ∷ codes "rw" ∷ [];
}

parse_mount_info-written_example :
    parse_mount_info (written_all (root_entry ∷ [])) ≡ mount_of root_entry ∷ []
parse_mount_info-written_example = parse_mount_info-written (root_entry ∷ []) (ground arith)

abbrev users_entry : FirmlinkEntry
users_entry = record { below_root = codes "Users"; target = codes "Users" }
