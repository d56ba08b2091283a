-- ===== src/ThreadPool/Invariant/Defs.antt =====
-- The invariant of the pool: what its counters count, for one thread among all and for all.
use cpputils.Base.{ℕ, ◌+◌, ◌≤◌, ◌<◌, ◌≡◌, List, ◌==◌, if◌then◌else◌, one_if, sum_of, total, u64_mod}
use cpputils.ThreadPool.Tags.{outstanding_at, retired_at}
use cpputils.ThreadPool.State.{TaggedTask, State}
use cpputils.ThreadPool.Steps.{
  Frame, registered, counted, popped, taken, running, finished, discarded, sweeping, swept, waiting,
  System,
}
use cpputils.ThreadPool.Accounting.{counts_for, IsFresh}
use cpputils.ThreadPool.Lanes.{on_lanes}

module _ {T : Type 0} where
  abbrev pub one : TaggedTask T → ℕ
  one _ = 1

  -- What `queuedCount` counts for a call in progress, beside the tasks in the lanes.
  abbrev pub in_flight : Frame T → ℕ
  in_flight (counted _ _) = 1
  in_flight (popped _) = 1
  in_flight (discarded _) = 1
  in_flight (sweeping _ _ _ n) = n
  in_flight _ = 0

  -- What `outstandingTaskCount` of the element at `p` counts for a call in progress.
  abbrev pub held : ℕ → Frame T → ℕ
  held p (registered _ item) = counts_for p item
  held p (counted _ item) = counts_for p item
  held p (popped item) = counts_for p item
  held p (taken item) = counts_for p item
  held p (running item) = counts_for p item
  held p (finished item) = counts_for p item
  held p (discarded item) = counts_for p item
  held p (sweeping _ q _ n) = if q == p then n else 0
  held p (swept _ q n) = if q == p then n else 0
  held p _ = 0

  -- The calls of `retire` that have the element at `p`.
  abbrev pub retires_at : ℕ → Frame T → ℕ
  retires_at p (sweeping _ q _ _) = one_if (q == p)
  retires_at p (swept _ q _) = one_if (q == p)
  retires_at p (waiting _ q) = one_if (q == p)
  retires_at p _ = 0

  -- The invariant, for a thread with calls `fs`, where all other threads together have `fl` tasks
  -- in flight, hold `hd p` tasks of the element at `p`, and have `rt p` calls that retire it.
  pub record Local (s : State T) (fs : List (Frame T)) (fl : ℕ) (hd rt : ℕ → ℕ) : Type 0 where
    pub queue : s.queued_count ≡ on_lanes one s.lanes + (fl + sum_of in_flight fs)
    pub queue_fits : s.queued_count < u64_mod
    pub counts :
        (p : ℕ)
        → outstanding_at p s.tags ≡ on_lanes (counts_for p) s.lanes + (hd p + sum_of (held p) fs)
    pub counts_fit : (p : ℕ) → outstanding_at p s.tags < u64_mod
    pub fresh : IsFresh s.tags
    pub retirers : (p : ℕ) → rt p + sum_of (retires_at p) fs ≤ retired_at p s.tags

  -- `queuedCount` is how many tasks are in the lanes, about to be pushed, or popped and not yet
  -- discounted; an element's `outstandingTaskCount` is how many of its tasks are in the lanes or in
  -- the hands of a thread; at most one `retire` is at work on an element, and only a retired one.
  pub record Inv (n : ℕ) (y : System T) : Type 0 where
    pub queue :
        y.state.queued_count ≡ on_lanes one y.state.lanes + total (sum_of in_flight) n y.calls
    pub queue_fits : y.state.queued_count < u64_mod
    pub counts :
        (p : ℕ)
        → outstanding_at p y.state.tags
          ≡ on_lanes (counts_for p) y.state.lanes + total (sum_of (held p)) n y.calls
    pub counts_fit : (p : ℕ) → outstanding_at p y.state.tags < u64_mod
    pub fresh : IsFresh y.state.tags
    pub retirers : (p : ℕ) → total (sum_of (retires_at p)) n y.calls ≤ retired_at p y.state.tags
