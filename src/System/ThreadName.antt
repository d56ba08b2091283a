-- ===== src/System/ThreadName.antt =====
-- threading/thread_helpers.cpp: `setThreadName` on Windows.
use cpputils.Base.{ℕ, ◌+◌, ◌≤◌, ◌≡◌, ◌↔◌, List, length, leb, if◌then◌else◌, arith}

-- `std::size(multibyteName)`
abbrev pub name_size : ℕ
name_size = 256

-- What `MultiByteToWideChar` returns for a name of these UTF-16 units, which it ends with a null unit:
-- how many units it has written, or 0 where they do not fit.
abbrev pub written_units : List ℕ → ℕ
written_units wide = if leb (length wide + 1) name_size then length wide + 1 else 0

-- The index at which `setThreadName` writes a null unit itself.
unfoldable pub null_index : List ℕ → ℕ
null_index wide = written_units wide

-- The write lies outside of the buffer exactly for names of 255 units.
pub null_index-out_of_range : (wide : List ℕ) → (name_size ≤ null_index wide) ↔ (length wide ≡ 255)
unfolding null_index
null_index-out_of_range wide = ground arith
