-- ===== src/ThreadPool/Idle/Wakeups.antt =====
-- No wakeup is lost.
use cpputils.Base.{ℕ, ◌<◌, ◌≡◌, true, arith, total-le, total-eq-zero_below, total_misses}
use cpputils.ThreadPool.Idle.{System, Reach}
use cpputils.ThreadPool.Idle.Local.{is_idle, is_asleep, is_pending, is_stopping}
use cpputils.ThreadPool.Idle.Invariant.{Reach-Inv}

-- In a pool of one worker or more, while tasks are counted and no call of `enqueue` is between
-- counting its task and its notification, some worker is not asleep: it is not blocked, nor about to
-- block with the condition checked, whatever the interleaving and whether or not the timeout ever
-- ends a wait.
pub no_lost_wakeup :
    {n m : ℕ} {y : System}
    → 0 < n
    → Reach n m y
    → 0 < y.state.queued_count
    → ((c : ℕ) → c < m → is_pending (y.callers c) ≡ 0)
    → (i : ℕ) × (i < n) × (is_asleep (y.workers i) ≡ 0)
no_lost_wakeup {n} {m} {y} pos r some_queued no_caller =
    total_misses is_asleep n y.workers
      (ground (arith, (Reach-Inv pos r).owed, total-eq-zero_below is_pending m y.callers no_caller))

-- In a pool of one worker or more, once `terminate` is set and no call of `requestWorkersStop` is
-- before its notification, no worker is asleep.
pub stop_wakes_all :
    {n m : ℕ} {y : System}
    → 0 < n
    → Reach n m y
    → y.state.terminate ≡ true
    → ((c : ℕ) → c < m → is_stopping (y.callers c) ≡ 0)
    → (i : ℕ) → i < n
    → is_asleep (y.workers i) ≡ 0
stop_wakes_all {n} {m} {y} pos r ended no_caller i lt = ground (
  arith,
  (Reach-Inv pos r).ending ended,
  total-eq-zero_below is_stopping m y.callers no_caller,
  total-le is_asleep n y.workers i lt,
)

-- The assertion of `finishAllThreads`: when no worker is in the wait, as when all have exited,
-- `idleCount` is 0.
idle_count-zero :
    {n m : ℕ} {y : System}
    → 0 < n
    → Reach n m y
    → ((i : ℕ) → i < n → is_idle (y.workers i) ≡ 0)
    → y.state.idle_count ≡ 0
idle_count-zero {n} {m} {y} pos r none_idle =
    ground
      (arith, (Reach-Inv pos r).counted_idle, total-eq-zero_below is_idle n y.workers none_idle)
