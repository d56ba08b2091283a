-- ===== src/Tests/Queues.antt =====
-- threading/cconsumerblockingqueue.h on small queues.
use cpputils.Base.{ℕ, List, [], ◌∷◌, ◌==◌}
use cpputils.BlockingQueue.History.{Op, pushes, pops, removes, run, start, IsFifo, run-IsFifo}

abbrev some_ops : List (Op ℕ)
some_ops = pushes 1 ∷ pushes 2 ∷ pushes 3 ∷ pops ∷ removes (λ x. x == 2) ∷ pops ∷ []

run-IsFifo_example : IsFifo 2 (run (start 2) some_ops)
run-IsFifo_example = run-IsFifo 2 some_ops
