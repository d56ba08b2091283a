-- ===== src/ThreadPool/Idle.antt =====
-- The loop of `State::runWorker`, in which the search for a task and the task are one place, with the
-- part of `enqueue` and `requestWorkersStop` that ends the idle wait, and `waitUntilStarted`. The mutex
-- is held from a waiter's check of its condition until it blocks, which are two steps here, so that a
-- notification might come between them.
pub mod Local
pub mod Invariant
pub mod Wakeups
pub mod Quiet
pub mod Stopping
use cpputils.Base.{
  ℕ, ◌+◌, ◌≤◌, ◌<◌, ◌≡◌, Bool, true, false, ◌||◌, ltb, update, add64, sub64, u64_mod, add32,
  u32_mod, not,
}

-- The members of `State` that the loop reads, and whether `idleMutex` is held.
pub record Idle : Type 0 where
  pub started_worker_count : ℕ
  pub queued_count : ℕ
  pub idle_count : ℕ
  pub terminate : Bool
  pub locked : Bool

-- Where a worker stands: before `++startedWorkerCount`; at the test of the loop; in the search for a
-- task, or in the task; past `++idleCount`; with the mutex, having found its
-- condition false; blocked on the condition variable; woken, before it has the mutex again; past the
-- wait; past the loop.
pub data Worker : Type 0 where
  starting at_top searching entering checked blocked woken leaving exited : Worker

-- Where a call of `enqueue` or `requestWorkersStop` stands: not made, or over; past `++queuedCount`;
-- past the push; past the test of `idleCount`; past `terminate = true`.
pub data Caller : Type 0 where
  outside counted pushed notifying stopping : Caller

-- The condition that the worker waits for.
unfoldable pub may_go : Idle → Bool
may_go s = s.terminate || ltb 0 s.queued_count

-- Whether `waitUntilStarted` returns, in a pool of `n` workers.
unfoldable pub is_started : ℕ → Idle → Bool
is_started n s = not (ltb s.started_worker_count n)

-- `notify_all`, for one worker.
abbrev pub wake : Worker → Worker
wake blocked = woken
wake w = w

-- What a worker does. That the counts of workers fit their types is a premise: a worker has a stack,
-- and their number is a `uint32_t`.
pub data WorkerMove (s : Idle) : Worker → Idle → Worker → Type 0 where
  starts :
      s.started_worker_count + 1 < u32_mod
      → WorkerMove s starting
          (record s { started_worker_count = add32 s.started_worker_count 1 })
          at_top
  searches : s.terminate ≡ false → WorkerMove s at_top s searching
  -- a task was found, and has run or was skipped
  ends_round : WorkerMove s searching s at_top
  parks :
      s.idle_count + 1 < u64_mod
      → WorkerMove s searching (record s { idle_count = add64 s.idle_count 1 }) entering
  passes : s.locked ≡ false → may_go s ≡ true → WorkerMove s entering s leaving
  finds_nothing :
      s.locked ≡ false
      → may_go s ≡ false
      → WorkerMove s entering (record s { locked = true }) checked
  blocks : WorkerMove s checked (record s { locked = false }) blocked
  -- a spurious wakeup, and the end of the five seconds
  stirs : WorkerMove s blocked s woken
  times_out : s.locked ≡ false → WorkerMove s blocked s leaving
  passes_again : s.locked ≡ false → may_go s ≡ true → WorkerMove s woken s leaving
  finds_nothing_again :
      s.locked ≡ false → may_go s ≡ false → WorkerMove s woken (record s { locked = true }) checked
  leaves : WorkerMove s leaving (record s { idle_count = sub64 s.idle_count 1 }) at_top
  exits : s.terminate ≡ true → WorkerMove s at_top s exited

-- What else happens to the state: by `enqueue`, by whoever takes tasks out of the lanes, and by
-- `requestWorkersStop` up to its notification.
pub data CallerMove (s : Idle) : Caller → Idle → Caller → Type 0 where
  counts :
      s.queued_count + 1 < u64_mod
      → CallerMove s outside (record s { queued_count = add64 s.queued_count 1 }) counted
  pushes : CallerMove s counted s pushed
  unwinds :
      0 < s.queued_count
      → CallerMove s counted (record s { queued_count = sub64 s.queued_count 1 }) outside
  sees_none : s.idle_count ≡ 0 → CallerMove s pushed s outside
  sees_idle : 0 < s.idle_count → CallerMove s pushed s notifying
  takes :
      (n : ℕ)
      → n ≤ s.queued_count
      → CallerMove s outside (record s { queued_count = sub64 s.queued_count n }) outside
  stops : CallerMove s outside (record s { terminate = true }) stopping

pub record System : Type 0 where
  pub state : Idle
  pub workers : ℕ → Worker
  pub callers : ℕ → Caller

-- A new pool.
abbrev pub init : System
init = record {
  state = record {
    started_worker_count = 0;
    queued_count = 0;
    idle_count = 0;
    terminate = false;
    locked = false;
  };
  workers = λ _. starting;
  callers = λ _. outside;
}

abbrev pub is_blocked : Worker → ℕ
is_blocked blocked = 1
is_blocked _ = 0

-- A step of one of `n` workers or `m` callers. `notify_one` wakes one worker if any is blocked.
pub data Step (n m : ℕ) (y : System) : System → Type 0 where
  works :
      (i : ℕ) {s : Idle} {w : Worker}
      → i < n
      → WorkerMove y.state (y.workers i) s w
      → Step n m y (record y { state = s; workers = update y.workers i w })
  acts :
      (c : ℕ) {s : Idle} {p : Caller}
      → c < m
      → CallerMove y.state (y.callers c) s p
      → Step n m y (record y { state = s; callers = update y.callers c p })
  notifies :
      (c j : ℕ)
      → c < m
      → y.callers c ≡ notifying
      → y.state.locked ≡ false
      → j < n
      → y.workers j ≡ blocked
      → Step n m y
          (record y { workers = update y.workers j woken; callers = update y.callers c outside })
  notifies_nobody :
      (c : ℕ)
      → c < m
      → y.callers c ≡ notifying
      → y.state.locked ≡ false
      → ((j : ℕ) → j < n → is_blocked (y.workers j) ≡ 0)
      → Step n m y (record y { callers = update y.callers c outside })
  notifies_all :
      (c : ℕ)
      → c < m
      → y.callers c ≡ stopping
      → y.state.locked ≡ false
      → Step n m y
          (record y { workers = λ i. wake (y.workers i); callers = update y.callers c outside })

pub data Reach (n m : ℕ) : System → Type 0 where
  start : Reach n m init
  later : {y z : System} → Reach n m y → Step n m y z → Reach n m z
