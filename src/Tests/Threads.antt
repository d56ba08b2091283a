-- ===== src/Tests/Threads.antt =====
-- threading/cperiodicexecutionthread.cpp on a thread that is started, paused and ended.
use cpputils.Base.{ℕ, ◌≡◌, ◌≤◌, refl, List, [], ◌∷◌, some, none, true, false}
use cpputils.PeriodicThread.{
  State, absent, cleared, asleep, create, request_end, Event, starts, requests, joins, pauses,
  resumes, advances, run,
}
use cpputils.PeriodicThread.Shutdown.{
  IsConsistent, run-IsConsistent, terminate_stops, terminate_returns,
}

-- Past the wait, about to call the workload for the second time.
abbrev at_work : State ℕ
at_work = record {
  thread = cleared;
  workload = some 1;
  terminate = false;
  paused = false;
  joining = false;
  calls = 1;
}

abbrev parked_and_paused : State ℕ
parked_and_paused = record at_work { thread = asleep; paused = true }

abbrev round_trip : List (Event ℕ)
round_trip =
    starts (some 1) 0 ∷ advances ∷ advances ∷ advances ∷ requests ∷ advances ∷ advances ∷ joins ∷ []

run-IsConsistent_example : IsConsistent (run round_trip (create none))
run-IsConsistent_example = run-IsConsistent none round_trip

terminate_stops_example :
    (run (advances ∷ pauses ∷ advances ∷ resumes ∷ []) (request_end at_work)).calls ≤ 2
terminate_stops_example =
    terminate_stops (advances ∷ pauses ∷ advances ∷ resumes ∷ []) at_work
      (refl, (refl, (refl, (refl, tt))))

terminate_returns_example :
    (run
      (advances ∷ advances ∷ advances ∷ advances ∷ joins ∷ [])
      (request_end parked_and_paused)).thread
    ≡ absent
terminate_returns_example = terminate_returns parked_and_paused refl
