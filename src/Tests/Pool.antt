-- ===== src/Tests/Pool.antt =====
-- threading/cthreadpool.cpp: a pool of one lane and one thread, which enqueues a task under the tag
-- 1 and retires the tag; and a worker that looks for tasks in two lanes.
use cpputils.Base.{ℕ, ◌%◌, ◌≡◌, ◌⊎◌, refl, [], ◌∷◌, some, none, true, false, arith, update}
use cpputils.BlockingQueue.{Queue, push, try_pop, remove_if}
use cpputils.ThreadPool.Tags.{find, deref, modify, try_emplace, erase_own}
use cpputils.ThreadPool.State.{
  TaggedTask, State, create_state, select_lane, register, tagged_task_can_run, complete_tagged_task,
  is_retired,
}
use cpputils.ThreadPool.Steps.{
  pick, registers, counts, pushes, retires, sweeps, uncounts, waits, Move, taken, running, finished,
  System, step, Reach, here, later,
}
use cpputils.ThreadPool.Worker.{worker_round, worker_round-steps}
use cpputils.ThreadPool.Invariant.{Inv, Reach-Inv}
use cpputils.ThreadPool.Retire.{IsQuiet, retire_barrier}
use cpputils.ThreadPool.Stealing.{try_get_task, steal, pop_from, pop_lane, Taken, try_get_task-none}

abbrev mod_1 : ℕ → ℕ
mod_1 x = x % 1

abbrev mod_2 : ℕ → ℕ
mod_2 x = x % 2

abbrev queued_run : (y : System ℕ) × Reach mod_1 1 1 y
unfolding create_state select_lane register try_emplace find deref modify push is_retired
queued_run = (
  _,
  later
      (later
        (later (later here (step 0 (omega arith) (pick 5 1)))
          (step 0 (omega arith) (registers refl (λ p. ground arith))))
        (step 0 (omega arith) (counts (omega arith))))
      (step 0 (omega arith) (pushes refl refl)),
)

-- The thread is at the wait of `retire`, and all its tasks are gone.
abbrev retired_run : (y : System ℕ) × Reach mod_1 1 1 y
unfolding queued_run find deref modify remove_if
retired_run = (
  _,
  later
      (later
        (later (later queued_run.1 (step 0 (omega arith) (retires 1 0 refl refl refl)))
          (step 0 (omega arith) (sweeps refl refl)))
        (step 0 (omega arith) (uncounts refl)))
      (step 0 (omega arith) waits),
)

Reach-Inv_example : Inv 1 queued_run.0
Reach-Inv_example = Reach-Inv mod_1 1 queued_run.1

retire_barrier_example : IsQuiet 1 0 (record {
  state = record retired_run.0.state { tags = erase_own 1 0 retired_run.0.state.tags };
  calls = update retired_run.0.calls 0 [];
})
unfolding retired_run find deref modify
retire_barrier_example =
    retire_barrier mod_1 1 0 1 0 retired_run.1 (omega arith) refl refl refl refl here

abbrev item : TaggedTask ℕ
item = record { tag_state = none; task = 5 }

abbrev one_task : State ℕ
one_task = record {
  lanes = record { max_size = 4; items = [] } ∷ record { max_size = 4; items = item ∷ [] } ∷ [];
  terminate = false;
  lane_selector = 2;
  queued_count = 1;
  tags = record { nodes = []; next_address = 0 };
}

no_task : State ℕ
no_task = record {
  lanes = record { max_size = 4; items = [] } ∷ record { max_size = 4; items = [] } ∷ [];
  terminate = false;
  lane_selector = 2;
  queued_count = 0;
  tags = record { nodes = []; next_address = 0 };
}

-- A worker on the first lane finds the task in the second.
try_get_task_steals : try_get_task mod_2 0 one_task ≡ some (item, no_task)
unfolding try_get_task steal pop_lane pop_from try_pop no_task
try_get_task_steals = refl

abbrev empty_lane : Queue (TaggedTask ℕ)
empty_lane = record { max_size = 4; items = [] }

nothing_found : try_get_task mod_2 0 no_task ≡ none
unfolding try_get_task steal pop_lane pop_from try_pop no_task
nothing_found = refl

try_get_task-none_example : empty_lane.items ≡ []
unfolding no_task
try_get_task-none_example =
    try_get_task-none mod_2 0 no_task (λ x lt. refl) (omega arith) (omega arith) (omega arith)
      nothing_found 1 empty_lane refl

-- A task that does nothing to the pool.
abbrev idle : ℕ → State ℕ → State ℕ
idle task s = s

round_done : worker_round mod_2 idle 0 one_task ≡ (true, no_task)
unfolding worker_round try_get_task steal pop_lane pop_from try_pop no_task tagged_task_can_run
    complete_tagged_task
round_done = refl

worker_round-steps_example :
    (got : TaggedTask ℕ) × (s₁ : State ℕ) × (s₂ : State ℕ) × Taken mod_2 one_task got s₁ []
    × ((Move mod_2 s₁ (taken got ∷ []) s₁ (running got ∷ []) × (s₂ ≡ idle got.task s₁))
        ⊎ (Move mod_2 s₁ (taken got ∷ []) s₁ (finished got ∷ []) × (s₂ ≡ s₁)))
    × Move mod_2 s₂ (finished got ∷ []) no_task []
worker_round-steps_example = worker_round-steps mod_2 idle 0 one_task no_task [] round_done
