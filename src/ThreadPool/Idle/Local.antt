-- ===== src/ThreadPool/Idle/Local.antt =====
-- The invariant of the idle wait, with what the other threads contribute as numbers.
use cpputils.Base.{ℕ, ◌+◌, ◌≤◌, ◌<◌, ◌≡◌, true, one_if, arith, u64_mod, u32_mod}
use cpputils.ThreadPool.Idle.{
  Idle, Worker, starting, at_top, searching, starts, searches, ends_round, checked, blocked, exited,
  Caller, counted, pushed, notifying, stopping, may_go, WorkerMove, parks, passes, finds_nothing,
  blocks, stirs, times_out, passes_again, finds_nothing_again, leaves, exits, CallerMove, counts,
  pushes, unwinds, sees_none, sees_idle, takes, stops,
}

-- A worker that `idleCount` counts.
abbrev pub is_idle : Worker → ℕ
is_idle starting = 0
is_idle at_top = 0
is_idle searching = 0
is_idle exited = 0
is_idle _ = 1

-- A worker that `startedWorkerCount` counts.
abbrev pub has_started : Worker → ℕ
has_started starting = 0
has_started _ = 1

abbrev pub is_checked : Worker → ℕ
is_checked checked = 1
is_checked _ = 0

-- A worker that will not look at its condition again unless it is woken.
abbrev pub is_asleep : Worker → ℕ
is_asleep checked = 1
is_asleep blocked = 1
is_asleep _ = 0

-- A caller that has counted a task and has yet to notify.
abbrev pub is_pending : Caller → ℕ
is_pending counted = 1
is_pending pushed = 1
is_pending notifying = 1
is_pending _ = 0

abbrev pub is_stopping : Caller → ℕ
is_stopping stopping = 1
is_stopping _ = 0

-- The invariant for `n` workers, of which so many have started, are idle, asleep and at their check, and for so
-- many pending and stopping callers.
pub record Local (n : ℕ) (s : Idle) (started idle asleep at_check pending stops : ℕ) : Type 0 where
  pub counted_started : s.started_worker_count ≡ started
  pub started_fits : s.started_worker_count < u32_mod
  pub counted_idle : s.idle_count ≡ idle
  pub idle_fits : s.idle_count < u64_mod
  pub queue_fits : s.queued_count < u64_mod
  pub holder : one_if s.locked ≡ at_check
  pub owed : n ≤ asleep → s.queued_count ≤ pending
  pub ending : s.terminate ≡ true → 0 < asleep → 0 < stops

pub WorkerMove-Local :
    {s s' : Idle} {w w' : Worker} (n t i a c p e : ℕ)
    → WorkerMove s w s' w'
    → Local n s (t + has_started w) (i + is_idle w) (a + is_asleep w) (c + is_checked w) p e
    → Local n s' (t + has_started w') (i + is_idle w') (a + is_asleep w') (c + is_checked w') p e
unfolding may_go
WorkerMove-Local n t i a c p e (starts fits) v = ground arith
WorkerMove-Local n t i a c p e (searches on) v = ground arith
WorkerMove-Local n t i a c p e ends_round v = ground arith
WorkerMove-Local n t i a c p e (parks fits) v = ground arith
WorkerMove-Local n t i a c p e (passes free go) v = ground arith
WorkerMove-Local n t i a c p e (finds_nothing free stay) v = ground arith
WorkerMove-Local n t i a c p e blocks v = ground arith
WorkerMove-Local n t i a c p e stirs v = ground arith
WorkerMove-Local n t i a c p e (times_out free) v = ground arith
WorkerMove-Local n t i a c p e (passes_again free go) v = ground arith
WorkerMove-Local n t i a c p e (finds_nothing_again free stay) v = ground arith
WorkerMove-Local n t i a c p e leaves v = ground arith
WorkerMove-Local n t i a c p e (exits ended) v = ground arith

pub CallerMove-Local :
    {s s' : Idle} {q q' : Caller} (n t i a c p e : ℕ)
    → 0 < n
    → a ≤ i
    → CallerMove s q s' q'
    → Local n s t i a c (p + is_pending q) (e + is_stopping q)
    → Local n s' t i a c (p + is_pending q') (e + is_stopping q')
CallerMove-Local n t i a c p e pos le (counts fits) v = ground arith
CallerMove-Local n t i a c p e pos le pushes v = ground arith
CallerMove-Local n t i a c p e pos le (unwinds some_left) v = ground arith
CallerMove-Local n t i a c p e pos le (sees_none nobody) v = ground arith
CallerMove-Local n t i a c p e pos le (sees_idle somebody) v = ground arith
CallerMove-Local n t i a c p e pos le (takes k fits) v = ground arith
CallerMove-Local n t i a c p e pos le stops v = ground arith
