-- ===== src/Tests/Calls.antt =====
-- threading/cthreadpool.h: `parallelFor` of two indices, done by the caller alone, and shared with a helper.
use cpputils.Base.{ℕ, ◌≡◌, refl, true, total, one_if, ltb, arith, some}
use cpputils.Batch.{
  Batch, next, complete, fetch, calls, returns, completes, completes_last, leave, out,
}
use cpputils.Batch.Exactly.{times, is_busy}
use cpputils.Batch.Alone.{countdown}
use cpputils.Batch.Parallel.{
  Call, Reach, called, later, enqueues, enters, drains, leaves, announces, finds_unset, blocks,
  picks_up, helps, wakes, waiting, is_done, parallel_for_alone,
}
use cpputils.Batch.Parallel.Returns.{
  parallel_for-returned, parallel_for-wakes, parallel_for_alone_lem,
}

abbrev waiting_call : (c : Call) × Reach 1 2 1 c
unfolding next complete
waiting_call = (
  _,
  later
      (later
        (later
          (later
            (later
              (later
                (later
                  (later
                    (later
                      (later
                        (later (later (later called (enqueues refl)) (enters refl refl)) (
                          drains refl (λ e. ground arith) (λ e. ground arith)
                            (fetch (omega arith) refl)))
                        (drains refl (λ e. ground arith) (λ e. ground arith) calls))
                      (drains refl (λ e. ground arith) (λ e. ground arith) returns))
                    (drains refl (λ e. ground arith) (λ e. ground arith) (completes refl)))
                  (drains refl (λ e. ground arith) (λ e. ground arith) (fetch (omega arith) refl)))
                (drains refl (λ e. ground arith) (λ e. ground arith) calls))
              (drains refl (λ e. ground arith) (λ e. ground arith) returns))
            (drains refl (λ e. ground arith) (λ e. ground arith) (completes_last refl)))
          (announces 0 (omega arith) refl refl))
        (drains refl (λ e. ground arith) (λ e. ground arith) (leave (omega arith) refl)))
      (leaves refl refl),
)

abbrev returned_call : (c : Call) × Reach 1 2 1 c
unfolding waiting_call is_done
returned_call = (_, later waiting_call.1 (wakes refl refl))

parallel_for-returned_example :
    (total is_busy 1 returned_call.0.threads.pc ≡ 0)
    × (times 1 returned_call.0.threads.batch.called ≡ one_if (ltb 1 2))
unfolding returned_call waiting_call
parallel_for-returned_example = parallel_for-returned 1 (omega arith) returned_call.1 refl

-- The caller is blocked in its wait before the helper announces completion.
abbrev notified_call : (c : Call) × Reach 2 2 1 c
unfolding next complete is_done
notified_call = (
  _,
  (later
      (later
        (later
          (later
            (later
              (later
                (later
                  (later
                    (later
                      (later
                        (later
                          (later
                            (later
                              (later
                                (later (later (later called (enqueues refl)) (enters refl refl)) (
                                  drains refl (λ e. ground arith) (λ e. ground arith)
                                    (fetch (omega arith) refl)))
                                (picks_up 1 (omega arith) (omega arith) refl refl))
                              (helps 1 (omega arith) (omega arith) (λ e. ground arith)
                                (λ e. ground arith) (fetch (omega arith) refl)))
                            (drains refl (λ e. ground arith) (λ e. ground arith) calls))
                          (drains refl (λ e. ground arith) (λ e. ground arith) returns))
                        (drains refl (λ e. ground arith) (λ e. ground arith) (completes refl)))
                      (drains refl (λ e. ground arith) (λ e. ground arith)
                        (leave (omega arith) refl)))
                    (leaves refl refl))
                  (finds_unset refl refl))
                (blocks refl))
              (helps 1 (omega arith) (omega arith) (λ e. ground arith) (λ e. ground arith) calls))
            (helps 1 (omega arith) (omega arith) (λ e. ground arith) (λ e. ground arith) returns))
          (helps 1 (omega arith) (omega arith) (λ e. ground arith) (λ e. ground arith)
            (completes_last refl)))
        (announces 1 (omega arith) refl refl))
      (helps 1 (omega arith) (omega arith) (λ e. ground arith) (λ e. ground arith)
        (leave (omega arith) refl))),
)

all_out : (j : ℕ) → notified_call.0.threads.pc j ≡ out
unfolding notified_call
all_out j = ground arith

parallel_for-wakes_example :
    (is_done notified_call.0.threads.batch ≡ true) × (notified_call.0.caller ≡ waiting)
unfolding notified_call
parallel_for-wakes_example =
    parallel_for-wakes (omega arith) (omega arith) notified_call.1 refl all_out

parallel_for_alone_example :
    (b : Batch) × (parallel_for_alone 4 9 3 ≡ some b) × (b.called ≡ countdown 3)
parallel_for_alone_example = parallel_for_alone_lem 4 3 9 (omega arith) (omega arith)
