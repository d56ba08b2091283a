-- ===== src/Timing/Reference.antt =====
-- What a stopwatch shows.
use cpputils.Base.{
  ℕ, ◌+◌, ◌-◌, ◌/◌, ◌≤◌, ◌≡◌, refl, List, [], ◌∷◌, Bool, true, false, not, if◌then◌else◌, arith, ap,
  ap₂, ◌∙◌,
}
use cpputils.Timing.{
  TimeElapsed, create, start, pause, resume, elapsed, Call, starts, pauses, resumes, apply, run,
}

-- Whether it runs after a call, and what it shows then.
abbrev pub runs : Call → Bool
runs pauses = false
runs _ = true

abbrev pub shows : Call → ℕ → ℕ
shows starts total = 0
shows _ total = total

-- The stopwatch by its idea: time that passes while it runs is added up.
abbrev pub measured : List (ℕ × Call) → Bool → ℕ → Bool × ℕ
measured [] running total = (running, total)
measured ((gap, c) ∷ cs) running total =
    measured cs (runs c) (shows c (if running then total + gap else total))

abbrev shown : ℕ → TimeElapsed → ℕ
shown now t = (if t.paused then 0 else now - t.start_time_stamp) + t.previously_accumulated_time

apply-shown :
    (c : Call) (gap now : ℕ) (t : TimeElapsed)
    → t.start_time_stamp ≤ now
    → let t' = apply (now + gap) c t in
      (shown (now + gap) t' ≡ shows c (if not t.paused then shown now t + gap else shown now t))
      × (not t'.paused ≡ runs c)
      × (t'.start_time_stamp ≤ now + gap)
unfolding apply start pause resume
apply-shown starts gap now t h = ground arith
apply-shown pauses gap now t h = ground arith
apply-shown resumes gap now t h = ground arith

run-measured :
    (cs : List (ℕ × Call)) (now : ℕ) (t : TimeElapsed)
    → t.start_time_stamp ≤ now
    → let (now', t') = run cs now t in shown now' t' ≡ (measured cs (not t.paused) (shown now t)).1
unfolding run
run-measured [] now t h = refl
run-measured ((gap, c) ∷ cs) now t h =
    let (same, running, le) = apply-shown c gap now t h in
    run-measured cs (now + gap) (apply (now + gap) c t) le
    ∙ ap₂ (λ r total. (measured cs r total).1) running same

-- Whatever calls are made and whenever, `elapsed()` is the time that has passed since the last
-- `start()` outside of the pauses, in whole units.
pub elapsed-eq-measured :
    (auto_start : Bool) (cs : List (ℕ × Call)) (now unit : ℕ)
    → let (now', t') = run cs now (create auto_start now) in
      elapsed unit now' t' ≡ (measured cs auto_start 0).1 / unit
unfolding elapsed create start
elapsed-eq-measured auto_start cs now unit =
    let t = create auto_start now in
    let fresh : (t.start_time_stamp ≤ now) × (shown now t ≡ 0) × (not t.paused ≡ auto_start) =
      elim auto_start [ true ↦ ground arith | false ↦ ground arith ] in
    let same = run-measured cs now t fresh.0 in
    ap (λ total. total / unit) (same ∙ ap₂ (λ r total. (measured cs r total).1) fresh.2 fresh.1)
