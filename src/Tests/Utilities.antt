-- ===== src/Tests/Utilities.antt =====
-- math/cmeancounter.h over whole numbers; lang/enum.h with two names;
-- threading/cinterruptablethread.h; scopes of timing/profiler.cpp.
use cpputils.Base.{
  ℕ, zero, suc, ◌+◌, ◌-◌, ◌*◌, ◌/◌, ◌≡◌, refl, List, [], ◌∷◌, true, false, ◌==◌, arith, codes,
}
use cpputils.MeanCounter.{Arithmetic, create, process_all, reset}
use cpputils.MeanCounter.Means.{reset-process_all}
use cpputils.Enum.{EnumItem}
use cpputils.Enum.Names.{IsDistinct}
use cpputils.InterruptableThread.{
  Thread, start, request_cancellation, Runs, polls_flag, ends, starts, Reach, created, later, Waits,
  here, on, Destroys,
}
use cpputils.InterruptableThread
use cpputils.InterruptableThread.Cancellation.{AllTrue, destructor_lem}
use cpputils.Profiler.Scopes.{Profile, Blocks, block, done, run, report, with_lines, run-report}

abbrev whole : Arithmetic ℕ ℕ ℕ ℕ
whole = record {
  nought = 0;
  add = ◌+◌;
  divide = ◌/◌;
  count_value = λ n. n;
  to_double = λ v. v;
  of_double = λ d. d;
  to_float = λ v. v;
  of_float = λ f. f;
  float_nought = 0;
  difference = ◌-◌;
  scale = ◌*◌;
  add_scaled = ◌+◌;
  double_nought = 0;
  add_double = ◌+◌;
  divide_double = ◌/◌;
  count_double = λ n. n;
  log = λ d. d;
  exp = λ d. d;
}

reset-process_all_example :
    process_all whole (5 ∷ []) (reset whole (process_all whole (2 ∷ []) (create whole 1)))
    ≡ process_all whole (5 ∷ []) (create whole 1)
unfolding process_all create
reset-process_all_example =
    reset-process_all whole (process_all whole (2 ∷ []) (create whole 1)) 5 []

abbrev two_items : List (EnumItem ℕ)
two_items = record { id = 1; name = codes "one" } ∷ record { id = 2; name = codes "two" } ∷ []

abbrev second_item : EnumItem ℕ
second_item = record { id = 2; name = codes "two" }

two-IsDistinct : IsDistinct ◌==◌ two_items
two-IsDistinct zero zero x y lt a b = absurd (omega arith)
two-IsDistinct zero (suc zero) x y lt a b = ground arith
two-IsDistinct zero (suc (suc j)) x y lt a b = ground arith
two-IsDistinct (suc zero) zero x y lt a b = absurd (omega arith)
two-IsDistinct (suc zero) (suc zero) x y lt a b = absurd (omega arith)
two-IsDistinct (suc zero) (suc (suc j)) x y lt a b = ground arith
two-IsDistinct (suc (suc i)) j x y lt a b = ground arith

abbrev running_thread : (t : Thread) × Reach t
unfolding start
running_thread = (_, later created (starts refl))

abbrev ended_thread : Thread
ended_thread = record {
  joinable = false;
  cancellation_requested = true;
  is_running = false;
  polls = true ∷ [];
}

destruction : Destroys running_thread.0 ended_thread
unfolding running_thread InterruptableThread.join request_cancellation
destruction = (_, on (on here (polls_flag refl)) (ends refl), refl)

destructor_example :
    (ended_thread.is_running ≡ false)
    × (ended_thread.joinable ≡ false)
    × AllTrue running_thread.0.polls ended_thread.polls
destructor_example = destructor_lem running_thread.1 destruction

abbrev profile : Profile
profile = record {
  has_logging_func = true;
  logged = [];
  timeline = record { start_time_stamp = 0; previously_accumulated_time = 0; paused = false };
  scope_depth = 0;
  previous_ns = 0;
}

abbrev nested : Blocks
nested = block (codes "outer") 1 9 (block (codes "inner") 2 5 done done) done

run-report_example : run nested profile ≡ with_lines (report profile.timeline 0 nested) profile
run-report_example = run-report nested profile
