-- ===== src/Tests/Tasks.antt =====
-- threading/cexecutionqueue.h on a queue of two tasks.
use cpputils.Base.{ℕ, ◌+◌, ◌≡◌, List, [], ◌∷◌, Option, some, arith}
use cpputils.Base.Int.{pos}
use cpputils.ExecutionQueue.{
  QueuedTask, exec_all, Effect, Call, returned, std_exception, enqueues, exec, untagged,
}
use cpputils.ExecutionQueue.Tags.{IsDistinct, exec-IsDistinct}
use cpputils.ExecutionQueue.Exec.{exec_all_drains, spawning, all_spawned, codes}

abbrev two_tasks : List (QueuedTask ℕ)
two_tasks = record { tag = pos 1; code = some 10 } ∷ record { tag = untagged; code = some 20 } ∷ []

two_tasks-IsDistinct : IsDistinct two_tasks
two_tasks-IsDistinct t ne = ground arith

-- Task 10 enqueues a task 30, and throws.
abbrev effects : ℕ → Effect ℕ
effects c = record { calls = enqueues (some 30) untagged ∷ []; outcome = std_exception }

abbrev nobody : ℕ → List (Call ℕ)
nobody _ = []

exec-IsDistinct_example : IsDistinct (exec effects nobody exec_all two_tasks).queue
exec-IsDistinct_example = exec-IsDistinct effects nobody exec_all two_tasks two_tasks-IsDistinct

abbrev one_each : ℕ → List (Option ℕ)
one_each c = some (c + 1) ∷ []

exec_all_drains_example :
    let r = exec (spawning one_each (λ _. returned)) nobody exec_all two_tasks in
    (r.ran ≡ codes two_tasks) × (r.queue ≡ all_spawned one_each (λ _. returned) (codes two_tasks))
exec_all_drains_example = exec_all_drains one_each (λ _. returned) two_tasks
