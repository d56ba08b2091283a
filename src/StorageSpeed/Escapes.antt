-- ===== src/StorageSpeed/Escapes.antt =====
-- Mount points in /proc/self/mountinfo.
use cpputils.Base.{
  ℕ, ◌≡◌, refl, List, [], ◌∷◌, ◌++◌, some, false, ◌==◌, arith, All, bytes_eq, if◌then◌else◌,
}
use cpputils.StorageSpeed.{unescaped_mount_point, parse_line, is_local_file_system_type, after_dash}

-- How the kernel writes a byte of a mount point.
abbrev pub escape_byte : ℕ → List ℕ → List ℕ
escape_byte x rest =
    if x == 32
    then 92 ∷ b'0' ∷ b'4' ∷ b'0' ∷ rest
    else (if x == 9
        then 92 ∷ b'0' ∷ b'1' ∷ b'1' ∷ rest
        else (if x == 10
            then 92 ∷ b'0' ∷ b'1' ∷ b'2' ∷ rest
            else (if x == 92 then 92 ∷ b'1' ∷ b'3' ∷ b'4' ∷ rest else x ∷ rest)))

abbrev pub escape : List ℕ → List ℕ
escape [] = []
escape (x ∷ xs) = escape_byte x (escape xs)

unescaped-plain :
    (x : ℕ) (xs : List ℕ)
    → (x == 92) ≡ false
    → unescaped_mount_point (x ∷ xs) ≡ x ∷ unescaped_mount_point xs
unfolding unescaped_mount_point
unescaped-plain x [] h = refl
unescaped-plain x (a ∷ []) h = refl
unescaped-plain x (a ∷ b ∷ []) h = refl
unescaped-plain x (a ∷ b ∷ c ∷ xs) h = ground arith

unescaped-escape : (path : List ℕ) → unescaped_mount_point (escape path) ≡ path
unfolding unescaped_mount_point
unescaped-escape [] = refl
unescaped-escape (x ∷ xs) = ground (arith, unescaped-escape xs, unescaped-plain x (escape xs))

after_dash-append :
    (optional rest : List (List ℕ))
    → All (λ f. bytes_eq f (b'-' ∷ []) ≡ false) optional
    → after_dash (optional ++ (b'-' ∷ []) ∷ rest) ≡ some rest
after_dash-append [] rest h = refl
after_dash-append (f ∷ fs) rest h = ground (arith, after_dash-append fs rest)

-- A line with any number of optional fields, none of them "-", is read as the mount with the mount
-- point that the kernel escaped, its device, and whether its type is a local one.
pub parse_line-escape :
    (mount_id parent_id device root path options type : List ℕ) (optional rest : List (List ℕ))
    → bytes_eq options (b'-' ∷ []) ≡ false
    → All (λ f. bytes_eq f (b'-' ∷ []) ≡ false) optional
    → parse_line (
        mount_id
        ∷ parent_id
        ∷ device
        ∷ root
        ∷ escape path
        ∷ options
        ∷ (optional ++ (b'-' ∷ []) ∷ type ∷ rest))
      ≡ some
          (record { mount_point = path; device = device; local = is_local_file_system_type type })
unfolding parse_line
parse_line-escape mount_id parent_id device root path options type optional rest h all =
    ground (arith, after_dash-append optional (type ∷ rest) all, unescaped-escape path)
