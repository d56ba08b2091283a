-- ===== src/Tests/Clocks.antt =====
-- timing/ctimeelapsed.h and timing/profiler.cpp on short runs.
use cpputils.Base.{ℕ, ◌/◌, ◌≡◌, refl, List, [], ◌∷◌, true}
use cpputils.Timing.{Call, starts, pauses, resumes, create, run, elapsed}
use cpputils.Timing.Reference.{measured, elapsed-eq-measured}

abbrev some_calls : List (ℕ × Call)
some_calls = (10, starts) ∷ (5, pauses) ∷ (100, pauses) ∷ (100, resumes) ∷ (7, pauses) ∷ []

twelve : (measured some_calls true 0).1 ≡ 12
twelve = refl

elapsed-eq-measured_example :
    let (now', t') = run some_calls 1000 (create true 1000) in
    elapsed 1 now' t' ≡ (measured some_calls true 0).1 / 1
elapsed-eq-measured_example = elapsed-eq-measured true some_calls 1000 1
