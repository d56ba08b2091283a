-- ===== src/Tests/Idle.antt =====
-- threading/cthreadpool.cpp: one worker falls asleep; a task is enqueued, and the worker woken; then
-- the worker is stopped.
use cpputils.Base.{ℕ, ◌*◌, ◌≤◌, ◌⊎◌, ◌<◌, ◌≡◌, refl, arith}
use cpputils.ThreadPool.Idle.{
  System, starts, searches, parks, finds_nothing, blocks, counts, pushes, sees_idle, stops, works,
  acts, notifies, notifies_all, Reach, start, later, may_go, is_started, passes_again,
}
use cpputils.ThreadPool.Idle.Local.{is_asleep, has_started}
use cpputils.ThreadPool.Idle.Quiet.{Run, here, further}
use cpputils.ThreadPool.Idle.Stopping.{started-all, stop_ends, has_ended, CanMove}
use cpputils.ThreadPool.Idle.Wakeups.{no_lost_wakeup}

abbrev asleep_run : (y : System) × Reach 1 1 y
unfolding may_go
asleep_run = (
  _,
  later
      (later
        (later
          (later (later start (works 0 (omega arith) (starts (omega arith))))
            (works 0 (omega arith) (searches refl)))
          (works 0 (omega arith) (parks (omega arith))))
        (works 0 (omega arith) (finds_nothing refl refl)))
      (works 0 (omega arith) blocks),
)

abbrev notified_run : (y : System) × Reach 1 1 y
unfolding asleep_run
notified_run = (
  _,
  later
      (later
        (later (later asleep_run.1 (acts 0 (omega arith) (counts (omega arith))))
          (acts 0 (omega arith) pushes))
        (acts 0 (omega arith) (sees_idle (omega arith))))
      (notifies 0 0 (omega arith) refl refl (omega arith) refl),
)

abbrev stopped_run : (y : System) × Reach 1 1 y
unfolding asleep_run
stopped_run = (
  _,
  later (later asleep_run.1 (acts 0 (omega arith) stops)) (notifies_all 0 (omega arith) refl refl),
)

no_lost_wakeup_example : (i : ℕ) × (i < 1) × (is_asleep (notified_run.0.workers i) ≡ 0)
unfolding asleep_run notified_run
no_lost_wakeup_example =
    no_lost_wakeup (omega arith) notified_run.1 (omega arith) (λ c lt. ground arith)

started-all_example : has_started (asleep_run.0.workers 0) ≡ 1
unfolding asleep_run is_started
started-all_example = started-all asleep_run.1 refl 0 (omega arith)

-- The worker leaves its wait.
abbrev ending_run : (z : System) × Run 1 1 stopped_run.0 1 z
unfolding asleep_run stopped_run may_go
ending_run = (_, further here (works 0 (omega arith) (passes_again refl refl)))

stop_ends_example :
    (1 ≤ 1 * 5)
    × (((i : ℕ) → i < 1 → has_ended (ending_run.0.workers i) ≡ 1) ⊎ CanMove 1 ending_run.0)
unfolding asleep_run stopped_run ending_run
stop_ends_example =
    stop_ends (omega arith) (omega arith) stopped_run.1 refl (λ c lt. ground arith) ending_run.1
