-- ===== src/StorageSpeed/Tables/Readback.antt =====
-- The mount table and the firmlinks, as the system writes them, are read back.
use cpputils.Base.{
  ap, ℕ, ◌<◌, length-append, ◌≡◌, ◌≢◌, refl, List, [], ◌∷◌, ◌++◌, some, false, Bool, ◌==◌, ◌||◌,
  arith, All, All-append, map, length, bytes_eq,
}
use cpputils.StorageSpeed.{Mount, Firmlink, is_local_file_system_type}
use cpputils.StorageSpeed.Escapes.{escape, parse_line-escape}
use cpputils.StorageSpeed.Tables.{
  lines_of, is_space, mounts_of, parse_mount_info, parse_firmlink, firmlinks_of, parse_firmlinks,
}
use cpputils.StorageSpeed.Tables.Text.{
  HasNo, IsWord, unwords, lines_of-line, words_of-unwords, find_char-first, take-append,
  drop-append,
}

-- A line of /proc/self/mountinfo.
pub record MountEntry : Type 0 where
  pub mount_id : List ℕ
  pub parent_id : List ℕ
  pub device : List ℕ
  pub root : List ℕ
  pub path : List ℕ
  pub options : List ℕ
  pub optional_fields : List (List ℕ)
  pub type : List ℕ
  pub rest : List (List ℕ)

abbrev dash : List ℕ
dash = b'-' ∷ []

abbrev after_path : MountEntry → List (List ℕ)
after_path e = e.options ∷ (e.optional_fields ++ (dash ∷ e.type ∷ e.rest))

abbrev pub written : MountEntry → List ℕ
written e = unwords (e.mount_id ∷ e.parent_id ∷ e.device ∷ e.root ∷ escape e.path ∷ after_path e)

abbrev pub written_all : List MountEntry → List ℕ
written_all [] = []
written_all (e ∷ es) = written e ++ (10 ∷ written_all es)

-- The kernel escapes a blank, a tab, a newline and a backslash; other white space it writes as it is.
abbrev IsPlain : ℕ → Type 0
IsPlain c = (◌≡◌ {A = Bool} (c == 11 || (c == 12 || c == 13)) false)

abbrev pub IsEntry : MountEntry → Type 0
IsEntry e =
    IsWord e.mount_id
    × IsWord e.parent_id
    × IsWord e.device
    × IsWord e.root
    × All IsWord (after_path e)
    × (e.path ≢ [])
    × All IsPlain e.path
    × (bytes_eq e.options dash ≡ false)
    × All (λ f. bytes_eq f dash ≡ false) e.optional_fields

abbrev pub mount_of : MountEntry → Mount
mount_of e = record {
  mount_point = e.path;
  device = e.device;
  local = is_local_file_system_type e.type;
}

abbrev NoSpace : List ℕ → Type 0
NoSpace xs = All (λ c. is_space c ≡ false) xs

escape-NoSpace : (path : List ℕ) → All IsPlain path → NoSpace (escape path)
escape-NoSpace [] h = h
escape-NoSpace (x ∷ xs) h = ground (arith, escape-NoSpace xs)

escape-IsWord : (path : List ℕ) → path ≢ [] → All IsPlain path → IsWord (escape path)
escape-IsWord [] ne h = absurd (ne refl)
escape-IsWord (x ∷ xs) ne h = ground (arith, escape-NoSpace xs)

NoSpace-HasNo : (xs : List ℕ) → NoSpace xs → HasNo 10 xs
NoSpace-HasNo [] h = h
NoSpace-HasNo (x ∷ xs) h = ground (arith, NoSpace-HasNo xs)

IsWord-HasNo : (w : List ℕ) → IsWord w → HasNo 10 w
IsWord-HasNo [] h = absurd h
IsWord-HasNo (x ∷ xs) h = NoSpace-HasNo (x ∷ xs) h

unwords-HasNo : (ws : List (List ℕ)) → All IsWord ws → HasNo 10 (unwords ws)
unwords-HasNo [] h = h
unwords-HasNo (w ∷ []) h = IsWord-HasNo w h.0
unwords-HasNo (w ∷ v ∷ ws) h =
    All-append (λ x. (x == 10) ≡ false) w (32 ∷ unwords (v ∷ ws)) (IsWord-HasNo w h.0)
      (refl, unwords-HasNo (v ∷ ws) h.1)

-- A mount table written by the kernel is read back whole, line by line: each mount point as it was
-- before the kernel's escaping, with its device and locality.
pub parse_mount_info-written :
    (es : List MountEntry) → All IsEntry es → parse_mount_info (written_all es) ≡ map mount_of es
unfolding parse_mount_info mounts_of lines_of
parse_mount_info-written [] h = refl
parse_mount_info-written (e ∷ es) ((a, b, c, d, f, ne, plain, opt, fields), hs) =
    let words = e.mount_id ∷ e.parent_id ∷ e.device ∷ e.root ∷ escape e.path ∷ after_path e in
    let are_words : All IsWord words = (a, (b, (c, (d, (escape-IsWord e.path ne plain, f))))) in
    rw (lines_of-line (written e) (written_all es) (unwords-HasNo words are_words)) (
      rw (words_of-unwords words are_words) (
        rw
          (parse_line-escape e.mount_id e.parent_id e.device e.root e.path e.options e.type
            e.optional_fields e.rest opt fields)
          (ap (λ ms. mount_of e ∷ ms) (parse_mount_info-written es hs))))

-- A line of /usr/share/firmlinks: an absolute path, and a target relative to the data volume.
pub record FirmlinkEntry : Type 0 where
  pub below_root : List ℕ
  pub target : List ℕ

abbrev firm_path : FirmlinkEntry → List ℕ
firm_path f = b'/' ∷ f.below_root

abbrev pub written_firmlinks : List FirmlinkEntry → List ℕ
written_firmlinks [] = []
written_firmlinks (f ∷ fs) = (firm_path f ++ (9 ∷ f.target)) ++ (10 ∷ written_firmlinks fs)

abbrev IsFirmlink : FirmlinkEntry → Type 0
IsFirmlink f = HasNo 9 f.below_root × HasNo 10 f.below_root × HasNo 10 f.target × (f.target ≢ [])

abbrev pub firmlink_of : List ℕ → FirmlinkEntry → Firmlink
firmlink_of root f = record { path = firm_path f; target = root ++ (b'/' ∷ f.target) }

some_length : (xs : List ℕ) → xs ≢ [] → 0 < length xs
some_length [] ne = absurd (ne refl)
some_length (x ∷ xs) ne = omega arith

parse_firmlink-written :
    (root : List ℕ) (f : FirmlinkEntry)
    → IsFirmlink f
    → parse_firmlink root (firm_path f ++ (9 ∷ f.target)) ≡ some (firmlink_of root f)
unfolding parse_firmlink
parse_firmlink-written root f (no_tab, _, _, ne) = ground (
  arith,
  find_char-first 9 f.below_root f.target no_tab,
  take-append f.below_root (9 ∷ f.target),
  drop-append f.below_root 9 f.target,
  length-append f.below_root (9 ∷ f.target),
  some_length f.target ne,
)

no_newline : (f : FirmlinkEntry) → IsFirmlink f → HasNo 10 (firm_path f ++ (9 ∷ f.target))
no_newline f (_, path_has_none, target_has_none, _) = (
  refl,
  All-append (λ x. (x == 10) ≡ false) f.below_root (9 ∷ f.target) path_has_none
      (refl, target_has_none),
)

-- The firmlinks are read back: each path, and its target below the data volume's root.
pub parse_firmlinks-written :
    (root : List ℕ) (fs : List FirmlinkEntry)
    → All IsFirmlink fs
    → parse_firmlinks (written_firmlinks fs) root ≡ map (firmlink_of root) fs
unfolding parse_firmlinks firmlinks_of lines_of
parse_firmlinks-written root [] h = refl
parse_firmlinks-written root (f ∷ fs) (g, hs) =
    rw (lines_of-line (firm_path f ++ (9 ∷ f.target)) (written_firmlinks fs) (no_newline f g)) (
      rw (parse_firmlink-written root f g)
        (ap (λ ms. firmlink_of root f ∷ ms) (parse_firmlinks-written root fs hs)))
