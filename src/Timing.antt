-- ===== src/Timing.antt =====
-- timing/ctimeelapsed.h: `CTimeElapsed`. Time is in nanoseconds of the steady clock; that the counts
-- fit their 64 bits, which they do for centuries, is left out.
pub mod Reference
use cpputils.Base.{ℕ, zero, ◌+◌, ◌-◌, ◌/◌, List, [], ◌∷◌, Bool, true, false, if◌then◌else◌}

pub record TimeElapsed : Type 0 where
  pub start_time_stamp : ℕ
  pub previously_accumulated_time : ℕ
  pub paused : Bool

-- `start()` at the time `now`.
unfoldable pub start : ℕ → TimeElapsed → TimeElapsed
start now t = record { start_time_stamp = now; previously_accumulated_time = 0; paused = false }

-- The constructor.
unfoldable pub create : Bool → ℕ → TimeElapsed
unfolding start
create auto_start now =
    let t : TimeElapsed = record {
      start_time_stamp = 0;
      previously_accumulated_time = 0;
      paused = true;
    } in
    if auto_start then start now t else t

unfoldable pub pause : ℕ → TimeElapsed → TimeElapsed
pause now t = if t.paused then t else record t {
  previously_accumulated_time = t.previously_accumulated_time + (now - t.start_time_stamp);
  paused = true;
}

unfoldable pub resume : ℕ → TimeElapsed → TimeElapsed
resume now t = if t.paused then record t { start_time_stamp = now; paused = false } else t

-- `elapsed<Unit>()`, for a unit of so many nanoseconds.
unfoldable pub elapsed : ℕ → ℕ → TimeElapsed → ℕ
elapsed unit now t =
    ((if t.paused then 0 else now - t.start_time_stamp) + t.previously_accumulated_time) / unit

pub data Call : Type 0 where
  starts pauses resumes : Call

unfoldable pub apply : ℕ → Call → TimeElapsed → TimeElapsed
unfolding start pause resume
apply now starts t = start now t
apply now pauses t = pause now t
apply now resumes t = resume now t

-- Calls, each with the time that passes before it, from a time on; and the time after them.
unfoldable pub run : List (ℕ × Call) → ℕ → TimeElapsed → ℕ × TimeElapsed
unfolding apply
run [] now t = (now, t)
run ((gap, c) ∷ cs) now t = run cs (now + gap) (apply (now + gap) c t)
