-- ===== src/System/Texts.antt =====
-- system/processfilepath.cpp and system/win_utils.cpp: texts that the system writes into a buffer.
use cpputils.Base.{
  ℕ, zero, suc, ◌≤◌, ◌<◌, ◌≡◌, refl, sym, ap, ◌∙◌, List, [], ◌∷◌, Option, none, some, ◌==◌, ltb,
  leb, ◌&&◌, if◌then◌else◌, length, take, arith, inl, inr, ◌⊎◌, dec_le,
}

-- `pathBufferSize`
abbrev pub path_buffer_size : ℕ
path_buffer_size = 8193

-- `processFilePath` on Windows, from the first `actualSize` units of the buffer.
unfoldable pub windows_file_path : List ℕ → List ℕ
windows_file_path written = if length written == path_buffer_size then [] else written

-- `processFilePath` on Linux; `none`: `readlink` fails.
unfoldable pub linux_file_path : Option (List ℕ) → List ℕ
linux_file_path none = []
linux_file_path (some written) =
    if ltb 0 (length written) && ltb (length written) path_buffer_size then written else []

-- `processFilePath` on macOS; `none`: the path does not fit.
unfoldable pub mac_file_path : Option (List ℕ) → List ℕ
mac_file_path none = []
mac_file_path (some written) = written

take_all : (n : ℕ) (xs : List ℕ) → length xs ≤ n → take n xs ≡ xs
take_all zero [] le = refl
take_all zero (x ∷ xs) le = absurd (omega arith)
take_all (suc n) [] le = refl
take_all (suc n) (x ∷ xs) le = ground (arith, take_all n xs (omega arith))

length-take-full : (n : ℕ) (xs : List ℕ) → n ≤ length xs → length (take n xs) ≡ n
length-take-full zero xs le = refl
length-take-full (suc n) [] le = absurd (omega arith)
length-take-full (suc n) (x ∷ xs) le = ground (arith, length-take-full n xs (omega arith))

-- What a caller is given of a path: all of it if it has at most 8192 units, and nothing otherwise.
abbrev pub whole_or_nothing : List ℕ → List ℕ
whole_or_nothing path = if leb (length path) 8192 then path else []

-- A buffer that is full.
full_lem :
    (written : List ℕ)
    → length written ≡ path_buffer_size
    → (windows_file_path written ≡ []) × (linux_file_path (some written) ≡ [])
unfolding windows_file_path linux_file_path
full_lem written e = (ground arith, ground arith)

-- A buffer with room left.
room_lem :
    (written : List ℕ)
    → length written < path_buffer_size
    → (windows_file_path written ≡ written) × (linux_file_path (some written) ≡ written)
unfolding windows_file_path linux_file_path
room_lem [] lt = (refl, refl)
room_lem (c ∷ written) lt = (ground arith, ground arith)

whole_lem :
    (path : List ℕ)
    → ((path_buffer_size ≤ length path) × (whole_or_nothing path ≡ []))
      ⊎ ((length path < path_buffer_size) × (whole_or_nothing path ≡ path))
whole_lem path = elim (dec_le path_buffer_size (length path)) [
  | yes long ↦ inl (long, ground arith)
  | no short ↦ inr (omega arith, ground arith)
]

-- Where the system fills the buffer with as much of the path as there is room for, the path is never
-- cut short: on Windows and on Linux it is returned whole, or not at all if it has more than 8192
-- units.
pub file_path-whole :
    (path : List ℕ)
    → (windows_file_path (take path_buffer_size path) ≡ whole_or_nothing path)
      × (linux_file_path (some (take path_buffer_size path)) ≡ whole_or_nothing path)
file_path-whole path = elim (whole_lem path) [
  | inl (long, nothing) ↦
      let (windows, linux) =
        full_lem (take path_buffer_size path) (length-take-full path_buffer_size path long) in
      (windows ∙ sym nothing, linux ∙ sym nothing)
  | inr (short, whole) ↦
      let (windows, linux) = room_lem path short in
      let all = take_all path_buffer_size path (omega arith) in
      (
        ap windows_file_path all ∙ windows ∙ sym whole,
        ap (λ l. linux_file_path (some l)) all ∙ linux ∙ sym whole,
      )
]

-- `ErrorStringFromErrorCode`: the system's message in a language, of which 0 is the user's or the
-- system's own, is empty where there is none.
abbrev without_line_end : List ℕ → List ℕ
without_line_end [] = []
without_line_end (c ∷ d ∷ []) = if (c == 13) && (d == 10) then [] else c ∷ d ∷ []
without_line_end (c ∷ cs) = c ∷ without_line_end cs

abbrev pub or_else : List ℕ → List ℕ → List ℕ
or_else [] fallback = fallback
or_else (c ∷ cs) fallback = c ∷ cs

-- `MAKELANGID(LANG_ENGLISH, SUBLANG_DEFAULT)`
abbrev english : ℕ
english = 0x409

unfoldable pub error_string : (ℕ → List ℕ) → (List ℕ → List ℕ) → List ℕ
error_string format_message to_utf8 =
    elim (or_else (format_message english) (format_message 0)) as (λ _. List ℕ) [
      | [] ↦ []
      | c ∷ cs ↦ to_utf8 (without_line_end (c ∷ cs))
    ]
