-- ===== src/ExecutionQueue.antt =====
-- threading/cexecutionqueue.h: `CExecutionQueue`. Each method locks the queue, but not while a task
-- runs: what the task itself or other threads do to the queue meanwhile is a list of calls.

pub mod Tags
pub mod Exec
use cpputils.Base.{
  ℕ, zero, suc, ◌+◌, List, [], ◌∷◌, ◌++◌, Option, none, some, Bool, true, false, length,
  if◌then◌else◌,
}
use cpputils.Base.Int.{ℤ, pos, negsuc, int_eq}

-- `QueuedTask`, where `none` is an empty `Task`.
pub record QueuedTask (C : Type 0) : Type 0 where
  pub tag : ℤ
  pub code : Option C

abbrev pub untagged : ℤ
untagged = negsuc 0

pub data ExecutionMode : Type 0 where
  exec_first exec_all : ExecutionMode

-- The calls that change the queue, but for `exec`.
pub data Call (C : Type 0) : Type 0 where
  enqueues : Option C → ℤ → Call C
  clears : Call C

-- How a task ends.
pub data Outcome : Type 0 where
  returned std_exception unknown_exception : Outcome

-- What a task's code does: the calls on the queue made while it runs, and how it ends.
pub record Effect (C : Type 0) : Type 0 where
  pub calls : List (Call C)
  pub outcome : Outcome

module _ {C : Type 0} where
  -- `_queue.erase(find_if(...))`: the first task with the tag goes.
  erase_tag : ℤ → List (QueuedTask C) → List (QueuedTask C)
  erase_tag t [] = []
  erase_tag t (x ∷ xs) = if int_eq x.tag t then xs else x ∷ erase_tag t xs

  unfoldable pub enqueue : Option C → ℤ → List (QueuedTask C) → List (QueuedTask C)
  unfolding erase_tag
  enqueue code tag q =
      (if int_eq tag untagged then q else erase_tag tag q) ++ record { tag = tag; code = code } ∷ []

  unfoldable pub clear : List (QueuedTask C) → List (QueuedTask C)
  clear q = []

  unfoldable pub try_pop : List (QueuedTask C) → Option (QueuedTask C × List (QueuedTask C))
  try_pop [] = none
  try_pop (x ∷ xs) = some (x, xs)

  pub apply : Call C → List (QueuedTask C) → List (QueuedTask C)
  unfolding enqueue clear
  apply (enqueues code tag) q = enqueue code tag q
  apply clears q = clear q

  unfoldable pub apply_all : List (Call C) → List (QueuedTask C) → List (QueuedTask C)
  unfolding apply
  apply_all [] q = q
  apply_all (c ∷ cs) q = apply_all cs (apply c q)

-- What `exec` leaves: the queue, the tasks run, in order, and the exceptions logged.
pub record Executed (C : Type 0) : Type 0 where
  pub queue : List (QueuedTask C)
  pub ran : List C
  pub logged : List Outcome

-- `log_unconditional_r` in the two handlers.
abbrev log_of : Outcome → List Outcome
log_of returned = []
log_of o = o ∷ []

-- `others k` is what other threads do while the loop of `exec` may still run `k` tasks, before it
-- takes the next.
module _ {C : Type 0} (effect : C → Effect C) (others : ℕ → List (Call C)) where
  abbrev add_run : C → Executed C → Executed C
  add_run c r = record {
    queue = r.queue;
    ran = c ∷ r.ran;
    logged = log_of (effect c).outcome ++ r.logged;
  }

  -- The loop, with `tasksToExecute` left.
  unfoldable pub exec_loop : ℕ → List (QueuedTask C) → Executed C
  unfolding try_pop apply_all
  exec_loop zero q = record { queue = q; ran = []; logged = [] }
  exec_loop (suc k) q = elim (try_pop (apply_all (others (suc k)) q)) [
    | none ↦ record { queue = []; ran = []; logged = [] }
    | some (task, rest) ↦ elim task.code [
      | none ↦ exec_loop k rest
      | some c ↦ add_run c (exec_loop k (apply_all (effect c).calls rest))
    ]
  ]

  unfoldable pub exec : ExecutionMode → List (QueuedTask C) → Executed C
  unfolding exec_loop
  exec exec_first q = exec_loop 1 q
  exec exec_all q = exec_loop (length q) q
