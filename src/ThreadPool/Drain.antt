-- ===== src/ThreadPool/Drain.antt =====
-- `CThreadPool::finishAllThreads(true)`: once every worker has left, the calling thread runs what is
-- queued, and what that enqueues. Nobody else is at work, so that `enqueue` runs without a break.
use cpputils.Base.{
  ℕ, zero, suc, ◌+◌, List, [], ◌∷◌, Option, none, some, Bool, true, false, if◌then◌else◌, get_elem?,
  set, add64, ltb, length,
}
use cpputils.BlockingQueue.{Queue, push}
use cpputils.ThreadPool.Stealing.{pop_lane}
use cpputils.ThreadPool.State.{
  TaggedTask, State, select_lane, register, tagged_task_can_run, complete_tagged_task,
}
pub mod Keeps
pub mod Pops
pub mod Returns

module _ {T : Type 0} where
  -- `queues[index].push(taggedTask)`; `none`: the queue is full, and the thread waits for ever.
  unfoldable pub push_to :
      Option (Queue (TaggedTask T)) → ℕ → TaggedTask T → State T → Option (State T)
  unfolding push
  push_to none lane item s = none
  push_to (some q) lane item s = elim (push [] q item) [
    | none ↦ none
    | some (q', n) ↦ some (record s { lanes = set s.lanes lane q' })
  ]

  -- `enqueue` past the registration; `none` in place of a task: the tag is retired.
  unfoldable pub push_counted : ℕ → Option (TaggedTask T) × State T → Option (State T)
  unfolding push_to
  push_counted lane (none, s) = some s
  push_counted lane (some item, s) =
      push_to (get_elem? s.lanes lane) lane item
        (record s { queued_count = add64 s.queued_count 1 })

module _ {T : Type 0} (lane_mod : ℕ → ℕ) where
  unfoldable pub enqueue : T → ℕ → State T → Option (State T)
  unfolding push_counted select_lane register
  enqueue task tag s =
      let (lane, s₁) = select_lane lane_mod s in push_counted lane (register task tag s₁)

  -- What a task enqueues, one after the other.
  unfoldable pub enqueue_all : List (T × ℕ) → State T → Option (State T)
  unfolding enqueue
  enqueue_all [] s = some s
  enqueue_all ((task, tag) ∷ rest) s = elim (enqueue task tag s) [
    | none ↦ none
    | some s' ↦ enqueue_all rest s'
  ]

  module _ (spawns : T → List (T × ℕ)) where
    -- `executeContainedTask`. A task is known by the tasks and tags that it enqueues, up to its
    -- return or throw.
    unfoldable pub execute_contained_task : TaggedTask T → State T → Option (State T)
    unfolding enqueue_all tagged_task_can_run complete_tagged_task
    execute_contained_task item s =
        elim (enqueue_all (if tagged_task_can_run item.tag_state s then spawns item.task else [])
          s) [ none ↦ none | some s' ↦ some (complete_tagged_task item.tag_state s') ]

    -- The loops of `finishAllThreads`, flattened: at one lane and with `drainedAny`, for so many rounds.
    unfoldable pub drain : ℕ → ℕ → Bool → State T → Option (State T)
    unfolding execute_contained_task pop_lane
    drain zero lane drained_any s = none
    drain (suc fuel) lane drained_any s = elim (ltb lane (length s.lanes)) [
      | true ↦ elim (pop_lane lane s) [
        | none ↦ drain fuel (lane + 1) drained_any s
        | some (item, s₁) ↦ elim (execute_contained_task item s₁) [
          | none ↦ none
          | some s₂ ↦ drain fuel lane true s₂
        ]
      ]
      | false ↦ elim drained_any [ true ↦ drain fuel 0 false s | false ↦ some s ]
    ]

    -- `finishAllThreads(true)` past the joins: `drainedAny` is set to `false` on entry to the outer loop.
    unfoldable pub complete_pending_tasks : ℕ → State T → Option (State T)
    unfolding drain
    complete_pending_tasks fuel s = drain fuel 0 false s
