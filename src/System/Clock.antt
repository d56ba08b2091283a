-- ===== src/System/Clock.antt =====
-- system/timing.cpp: `timeElapsedMs` where there is a `timespec`.
use cpputils.Base.{
  ℕ, ◌+◌, ◌*◌, ◌/◌, ◌%◌, ◌≤◌, ◌<◌, ◌≡◌, List, [], ◌∷◌, Option, none, some, arith, u64_mod, ◌⊎◌, inl,
  inr,
}

pub record Timespec : Type 0 where
  pub tv_sec : ℕ
  pub tv_nsec : ℕ

-- `tsToMs`; the casts to `uint64_t` and its arithmetic wrap around.
unfoldable pub ts_to_ms : Timespec → ℕ
ts_to_ms ts = (ts.tv_sec * 1000 % u64_mod + ts.tv_nsec / 1_000_000) % u64_mod

-- `timeElapsedMs` on Linux, from what the calls of `clock_gettime` give; `none`: one fails, and the
-- loop goes on. `none` as a result: they have all failed.
unfoldable pub time_elapsed_linux : List (Option Timespec) → Option ℕ
unfolding ts_to_ms
time_elapsed_linux [] = none
time_elapsed_linux (none ∷ calls) = time_elapsed_linux calls
time_elapsed_linux (some ts ∷ calls) = some (ts_to_ms ts)

-- `timeElapsedMs` elsewhere; `none`: `timespec_get` fails.
unfoldable pub time_elapsed_elsewhere : Option Timespec → ℕ
unfolding ts_to_ms
time_elapsed_elsewhere none = 0
time_elapsed_elsewhere (some ts) = ts_to_ms ts

-- One reading of the clock is not before another.
abbrev IsNotAfter : Timespec → Timespec → Type 0
IsNotAfter a b = (a.tv_sec < b.tv_sec) ⊎ ((a.tv_sec ≡ b.tv_sec) × (a.tv_nsec ≤ b.tv_nsec))

-- Milliseconds do not run backwards, for readings in order with less than a second's nanoseconds and
-- seconds that have not reached 2^54.
ts_to_ms-le :
    (a b : Timespec)
    → IsNotAfter a b
    → a.tv_nsec < 1_000_000_000
    → b.tv_nsec < 1_000_000_000
    → b.tv_sec < 0x40_0000_0000_0000
    → ts_to_ms a ≤ ts_to_ms b
unfolding ts_to_ms
ts_to_ms-le a b (inl lt) na nb small = omega arith
ts_to_ms-le a b (inr (e, le)) na nb small = omega arith
