-- ===== src/Tests/Batches.antt =====
-- threading/cthreadpool.h: a batch of one index, drained by one thread.
use cpputils.Base.{◌≡◌, refl, arith, one_if, ltb}
use cpputils.Batch.{
  next, complete, enter, fetch, leave, calls, returns, completes_last, finishes, System, step,
  Reach, start, later,
}
use cpputils.Batch.Exactly.{times, drained}

abbrev drained_run : (y : System) × Reach 1 1 y
unfolding next complete
drained_run = (
  _,
  later
      (later
        (later
          (later
            (later
              (later (later start (step 0 (omega arith) enter))
                (step 0 (omega arith) (fetch (omega arith) refl)))
              (step 0 (omega arith) calls))
            (step 0 (omega arith) returns))
          (step 0 (omega arith) (completes_last refl)))
        (step 0 (omega arith) finishes))
      (step 0 (omega arith) (leave (omega arith) refl)),
)

drained_example :
    (times 0 drained_run.0.batch.called ≡ one_if (ltb 0 1))
    × (drained_run.0.batch.all_completed_calls ≡ 1)
unfolding drained_run
drained_example = drained 0 drained_run.1 (omega arith) (omega arith) (λ j. ground arith)
