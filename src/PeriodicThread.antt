-- ===== src/PeriodicThread.antt =====
-- threading/cperiodicexecutionthread.cpp: `CPeriodicExecutionThread`. An event is a call of a method
-- or what its thread does between two points at which others may come in: it takes the mutex, or
-- gives it back. The waits with a timeout may end at any time; the wait while paused has no timeout,
-- and a thread that is blocked in it sleeps until it is notified or wakes spuriously.
pub mod Shutdown
pub mod Pausing
use cpputils.Base.{
  ℕ, ◌+◌, List, [], ◌∷◌, Option, none, some, Bool, true, false, not, ◌||◌, ◌&&◌, ◌==◌,
  if◌then◌else◌,
}

-- Where the thread stands; `absent`: `_thread` is not joinable.
pub data Thread : Type 0 where
  absent : Thread
  starting : ℕ → Thread  -- at the entry of `threadFunc`, with `delayBeforeStartMs`
  delaying : Thread
  at_park : Thread  -- about to test the condition of the wait while paused
  asleep : Thread  -- blocked in that wait
  cleared : Thread  -- past that wait, the mutex given back, before `_workload()`
  working : Thread  -- in `_workload()`
  between : Thread  -- at the wait for the period
  exited : Thread

-- The members, and how often the workload has been called. `W` is the type of workloads; `none`: an
-- empty `std::function`. `joining`: a call of `terminate()` is at its `join`.
pub record State (W : Type 0) : Type 0 where
  pub thread : Thread
  pub workload : Option W
  pub terminate : Bool
  pub paused : Bool
  pub joining : Bool
  pub calls : ℕ

abbrev pub joinable : Thread → Bool
joinable absent = false
joinable _ = true

abbrev has_exited : Thread → Bool
has_exited exited = true
has_exited _ = false

-- `_cv.notify_all()`. In a wait with a timeout it only brings forward what may happen anyway.
abbrev pub notified : Thread → Thread
notified asleep = at_park
notified t = t

module _ {W : Type 0} where
  -- The constructor.
  abbrev pub create : Option W → State W
  create workload = record {
    thread = absent;
    workload = workload;
    terminate = false;
    paused = false;
    joining = false;
    calls = 0;
  }

  unfoldable pub set_workload : Option W → State W → State W
  set_workload workload s = if joinable s.thread then s else record s { workload = workload }

  unfoldable pub start : Option W → ℕ → State W → State W
  start workload delay s =
      if joinable s.thread then s else record s { workload = workload; thread = starting delay }

  -- `terminate()` up to the join, and from the end of the thread on.
  unfoldable pub request_end : State W → State W
  request_end s =
      if joinable s.thread
      then record s { terminate = true; joining = true; thread = notified s.thread }
      else s

  unfoldable pub join : State W → State W
  join s =
      if s.joining && has_exited s.thread
      then record s { thread = absent; terminate = false; joining = false }
      else s

  unfoldable pub pause : State W → State W
  pause s = record s { paused = true; thread = notified s.thread }

  unfoldable pub resume : State W → State W
  resume s = record s { paused = false; thread = notified s.thread }

  -- `threadFunc`, from one such point to the next.
  pub advance_from : Thread → State W → State W
  advance_from absent s = s
  advance_from (starting delay) s = elim s.workload as (λ _. State W) [
    | none ↦ record s { thread = exited }
    | some w ↦ if delay == 0 then record s { thread = at_park } else record s { thread = delaying }
  ]
  advance_from delaying s = record s { thread = at_park }
  advance_from at_park s =
      if not s.paused || s.terminate
      then (if s.terminate then record s { thread = exited } else record s { thread = cleared })
      else record s { thread = asleep }
  advance_from asleep s = s
  advance_from cleared s = record s { thread = working; calls = s.calls + 1 }
  advance_from working s = record s { thread = between }
  advance_from between s =
      if s.terminate then record s { thread = exited } else record s { thread = at_park }
  advance_from exited s = s

  -- A spurious wakeup.
  unfoldable pub stir : State W → State W
  stir s = record s { thread = notified s.thread }

  unfoldable pub advance : State W → State W
  unfolding advance_from
  advance s = advance_from s.thread s

pub data Event (W : Type 0) : Type 0 where
  sets : Option W → Event W
  starts : Option W → ℕ → Event W
  requests joins pauses resumes advances stirs : Event W

module _ {W : Type 0} where
  unfoldable pub apply : Event W → State W → State W
  unfolding set_workload start request_end join pause resume advance stir
  apply (sets w) s = set_workload w s
  apply (starts w delay) s = start w delay s
  apply requests s = request_end s
  apply joins s = join s
  apply pauses s = pause s
  apply resumes s = resume s
  apply advances s = advance s
  apply stirs s = stir s

  unfoldable pub run : List (Event W) → State W → State W
  unfolding apply
  run [] s = s
  run (e ∷ es) s = run es (apply e s)
