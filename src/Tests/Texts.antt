-- ===== src/Tests/Texts.antt =====
-- debugger/debugger_is_attached.cpp, system/processfilepath.cpp and the reports of timing/profiler.cpp.
use cpputils.Base.{
  ℕ, ◌+◌, ◌≡◌, refl, List, [], ◌∷◌, ◌++◌, some, true, not, ◌==◌, arith, codes, take,
}
use cpputils.System.Debugger.{debugger_is_attached, tracer_pid, IsClear, debugger_is_attached_lem}
use cpputils.System.Texts.{
  windows_file_path, linux_file_path, path_buffer_size, whole_or_nothing, file_path-whole,
}
use cpputils.Profiler.{Accumulator, reset_counters}
use cpputils.Profiler.Reports.{report_counters, samples, wanted, report_counters-wanted}
use cpputils.Timing.{TimeElapsed, create}

abbrev first_line : List ℕ
first_line = b'N' ∷ b':' ∷ 10 ∷ []

first_line-IsClear :
    IsClear tracer_pid first_line (tracer_pid ++ ((9 ∷ []) ++ (b'7' ∷ (10 ∷ []) ++ 0 ∷ [])))
unfolding IsClear
first_line-IsClear =
    ((λ e. ground arith), refl, ((λ e. ground arith), refl, ((λ e. ground arith), refl, tt)))

debugger_is_attached_example :
    debugger_is_attached (some (first_line ++ (tracer_pid ++ ((9 ∷ []) ++ (b'7' ∷ 10 ∷ [])))))
    ≡ not (b'7' == b'0')
debugger_is_attached_example =
    debugger_is_attached_lem first_line (9 ∷ []) b'7' (10 ∷ []) first_line-IsClear (refl, tt) refl

file_path-whole_example :
    (windows_file_path (take path_buffer_size (codes "/a")) ≡ whole_or_nothing (codes "/a"))
    × (linux_file_path (some (take path_buffer_size (codes "/a"))) ≡ whole_or_nothing (codes "/a"))
file_path-whole_example = file_path-whole (codes "/a")

abbrev counters : List Accumulator
counters =
    record { name = codes "a"; ns = 5; calls = 1 }
    ∷ record { name = codes "b"; ns = 0; calls = 0 }
    ∷ []

abbrev taken : List (ℕ × ℕ)
taken = (1, 30) ∷ (0, 7) ∷ (1, 12) ∷ []

abbrev timeline : TimeElapsed
timeline = create true 0

report_counters-wanted_example :
    report_counters timeline (λ n. 100 + n) 0 (samples taken (reset_counters counters))
    ≡ wanted timeline (λ n. 100 + n) 0 taken counters
report_counters-wanted_example = report_counters-wanted timeline (λ n. 100 + n) taken counters
