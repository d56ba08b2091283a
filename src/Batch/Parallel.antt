-- ===== src/Batch/Parallel.antt =====
-- threading/cthreadpool.h: `CThreadPool::parallelFor` and `parallelForAsync`. The caller is thread 0
-- of the batch, a worker with a helper task one of the others.
use cpputils.Base.{
  ℕ, zero, suc, ◌+◌, ◌-◌, ◌<◌, ◌≡◌, ◌≢◌, ltb, min, update, Option, none, some, Bool, if◌then◌else◌,
  ◌==◌, u32_mod, ◌%◌,
}
use cpputils.Batch.{
  Batch, System, Pc, Move, create, call, call_all_completed, drain_indices, out, fetching, last,
  init,
}
pub mod Invariant
pub mod Returns

-- What a call does before it shares work: `return`, `fn(0)`, a task of its own for
-- `onAllCompleted`, or a batch and so many helper tasks.
pub data Dispatch : Type 0 where
  nothing : Dispatch
  call_here : Dispatch
  completion_task : Dispatch
  share : Batch → ℕ → Dispatch

unfoldable pub parallel_for : ℕ → ℕ → Dispatch
parallel_for max_threads count =
    if count == 0
    then nothing
    else (if count == 1
        then call_here
        else share (create count) (min (count - 1) max_threads % u32_mod))

unfoldable parallel_for_async : ℕ → ℕ → Dispatch
parallel_for_async max_threads count =
    if count == 0 then completion_task else share (create count) (min count max_threads % u32_mod)

-- Where the caller of `parallelFor` stands: with helper tasks still to enqueue; in `drainIndices`;
-- before the test of `done` in the wait; past that test, which failed, and still with the mutex;
-- blocked in the wait, the mutex given back; past the wait.
pub data CallerPc : Type 0 where
  enqueuing : ℕ → CallerPc
  draining : CallerPc
  waiting : CallerPc
  checked : CallerPc
  asleep : CallerPc
  returned : CallerPc

-- `sync->mutex` is held by the caller from the test of `done` until it blocks.
abbrev pub holds_mutex : CallerPc → Bool
holds_mutex checked = Bool.true
holds_mutex _ = Bool.false

-- `sync->allDone.notify_one()`
abbrev pub notified : CallerPc → CallerPc
notified asleep = waiting
notified pc = pc

-- `done` is set by the batch's `onAllCompleted`.
unfoldable pub is_done : Batch → Bool
is_done b = ltb 0 b.all_completed_calls

pub record Call : Type 0 where
  pub caller : CallerPc
  pub helpers_queued : ℕ
  pub threads : System

abbrev start_call : ℕ → ℕ → Call
start_call count helpers = record {
  caller = enqueuing helpers;
  helpers_queued = 0;
  threads = init count;
}

abbrev pub moved : Call → ℕ → Batch → Pc → System
moved c i b p = record { batch = b; pc = update c.threads.pc i p }

-- One step of the caller or of a worker; `n` threads take part.
pub data Step (n : ℕ) (c : Call) : Call → Type 0 where
  enqueues :
      {k : ℕ}
      → c.caller ≡ enqueuing (suc k)
      → Step n c (record c { caller = enqueuing k; helpers_queued = c.helpers_queued + 1 })
  enters :
      c.caller ≡ enqueuing 0
      → c.threads.pc 0 ≡ out
      → Step n c (record c { caller = draining; threads = moved c 0 c.threads.batch fetching })
  drains :
      {b : Batch} {p : Pc}
      → c.caller ≡ draining
      → c.threads.pc 0 ≢ out
      → c.threads.pc 0 ≢ last
      → Move c.threads.batch (c.threads.pc 0) b p
      → Step n c (record c { threads = moved c 0 b p })
  leaves : c.caller ≡ draining → c.threads.pc 0 ≡ out → Step n c (record c { caller = waiting })
  -- `onAllCompleted()`, by the caller or by a worker: it takes the mutex, sets `done` and notifies
  announces :
      (i : ℕ)
      → i < n
      → c.threads.pc i ≡ last
      → holds_mutex c.caller ≡ Bool.false
      → Step n c (record c {
        caller = notified c.caller;
        threads = moved c i (call_all_completed c.threads.batch) fetching;
      })
  -- the test of `done` in the wait, with the mutex
  wakes :
      c.caller ≡ waiting
      → is_done c.threads.batch ≡ Bool.true
      → Step n c (record c { caller = returned })
  finds_unset :
      c.caller ≡ waiting
      → is_done c.threads.batch ≡ Bool.false
      → Step n c (record c { caller = checked })
  blocks : c.caller ≡ checked → Step n c (record c { caller = asleep })
  -- a spurious wakeup
  stirs : c.caller ≡ asleep → Step n c (record c { caller = waiting })
  -- a worker begins a helper task, and goes on with one
  picks_up :
      (i : ℕ) {k : ℕ}
      → 0 < i
      → i < n
      → c.helpers_queued ≡ suc k
      → c.threads.pc i ≡ out
      → Step n c (record c { helpers_queued = k; threads = moved c i c.threads.batch fetching })
  helps :
      (i : ℕ) {b : Batch} {p : Pc}
      → 0 < i
      → i < n
      → c.threads.pc i ≢ out
      → c.threads.pc i ≢ last
      → Move c.threads.batch (c.threads.pc i) b p
      → Step n c (record c { threads = moved c i b p })

pub data Reach (n count helpers : ℕ) : Call → Type 0 where
  called : Reach n count helpers (start_call count helpers)
  later : {c d : Call} → Reach n count helpers c → Step n c d → Reach n count helpers d

-- `parallelFor` where no worker picks up a helper task; `none`: the rounds run out, or the caller
-- waits for `done`.
unfoldable pub parallel_for_alone : ℕ → ℕ → ℕ → Option Batch
unfolding parallel_for drain_indices is_done
parallel_for_alone max_threads rounds count = elim (parallel_for max_threads count) [
  | nothing ↦ some (create count)
  | call_here ↦ some (call 0 (create count))
  | completion_task ↦ none
  | share b helpers ↦ elim (drain_indices rounds b) [
    | none ↦ none
    | some b' ↦ if is_done b' then some b' else none
  ]
]
