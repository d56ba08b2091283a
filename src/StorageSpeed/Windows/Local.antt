-- ===== src/StorageSpeed/Windows/Local.antt =====
-- The system's own lookup, which may block on an unreachable share, is for local paths alone.
use cpputils.Base.{ℕ, ◌≤◌, ◌≡◌, ◌≢◌, ◌⊎◌, List, [], ◌∷◌, true}
use cpputils.StorageSpeed.Windows.{SystemCalls, drive_other}

abbrev pub IsLetter : ℕ → Type 0
IsLetter c = ((65 ≤ c) × (c ≤ 90)) ⊎ ((97 ≤ c) × (c ≤ 122))

-- A path that leads to another host or to a drive that is neither a fixed nor a RAM disk: \\server,
-- \\?\UNC\ in letters of either case, X: and \\?\X:.
pub data IsRemote (os : SystemCalls) : List ℕ → Type 0 where
  share :
      (server : ℕ) (rest : List ℕ)
      → server ≢ 63
      → server ≢ 46
      → IsRemote os (92 ∷ 92 ∷ server ∷ rest)
  verbatim_share :
      (a b c d e f g h : ℕ) (rest : List ℕ)
      → os.equal_ordinal
          (a ∷ b ∷ c ∷ d ∷ e ∷ f ∷ g ∷ h ∷ [])
          (92 ∷ 92 ∷ 63 ∷ 92 ∷ 85 ∷ 78 ∷ 67 ∷ 92 ∷ [])
        ≡ true
      → IsRemote os (a ∷ b ∷ c ∷ d ∷ e ∷ f ∷ g ∷ h ∷ rest)
  drive :
      (letter : ℕ) (rest : List ℕ)
      → IsLetter letter
      → os.drive_type (letter ∷ 58 ∷ 92 ∷ []) ≡ drive_other
      → IsRemote os (letter ∷ 58 ∷ rest)
  verbatim_drive :
      (letter : ℕ) (rest : List ℕ)
      → IsLetter letter
      → os.drive_type (letter ∷ 58 ∷ 92 ∷ []) ≡ drive_other
      → IsRemote os (92 ∷ 92 ∷ 63 ∷ 92 ∷ letter ∷ 58 ∷ rest)
