-- ===== src/PeriodicThread/Shutdown.antt =====
-- Ending and restarting.
use cpputils.Base.{
  ℕ, ◌+◌, ◌≤◌, ◌≡◌, refl, ◌∙◌, inl, inr, List, [], ◌∷◌, Option, Bool, true, false, not, ◌||◌, ◌==◌,
  arith, All, Bool-cases, Option-cases, ◌&&◌,
}
use cpputils.PeriodicThread.{
  Thread, absent, starting, delaying, at_park, asleep, cleared, working, between, exited, notified,
  State, create, joinable, set_workload, start, request_end, join, pause, resume, advance,
  advance_from, Event, sets, starts, requests, joins, pauses, resumes, advances, stirs, stir, apply,
  run,
}

abbrev pub is_starts : {W : Type 0} → Event W → Bool
is_starts (starts _ _) = true
is_starts _ = false

-- The flag is up just while a call of `terminate()` waits for a thread.
abbrev pub IsConsistent : {W : Type 0} → State W → Type 0
IsConsistent s = (s.terminate ≡ s.joining) × (joinable s.thread ≡ false → s.terminate ≡ false)

-- No more calls of the workload are to come.
Ends : {W : Type 0} → State W → Type 0
Ends s = ((s.terminate && joinable s.thread) || not (joinable s.thread)) ≡ true

pub joinable-notified : (t : Thread) → joinable (notified t) ≡ joinable t
joinable-notified asleep = refl
joinable-notified absent = refl
joinable-notified (starting d) = refl
joinable-notified delaying = refl
joinable-notified at_park = refl
joinable-notified cleared = refl
joinable-notified working = refl
joinable-notified between = refl
joinable-notified exited = refl

-- The call of the workload that a thread past the wait is about to make.
abbrev pub cleared_calls : Thread → ℕ
cleared_calls cleared = 1
cleared_calls _ = 0

pub cleared_calls-notified : (t : Thread) → cleared_calls (notified t) ≡ cleared_calls t
cleared_calls-notified asleep = refl
cleared_calls-notified absent = refl
cleared_calls-notified (starting d) = refl
cleared_calls-notified delaying = refl
cleared_calls-notified at_park = refl
cleared_calls-notified cleared = refl
cleared_calls-notified working = refl
cleared_calls-notified between = refl
cleared_calls-notified exited = refl

-- Calls made, and the one that cannot be called off any more.
abbrev pub committed : {W : Type 0} → State W → ℕ
committed s = s.calls + cleared_calls s.thread

module _ {W : Type 0} where
  pub advance_from-keeps :
      (t : Thread) (s : State W)
      → s.thread ≡ t
      → ((advance_from t s).terminate ≡ s.terminate)
        × ((advance_from t s).joining ≡ s.joining)
        × (joinable (advance_from t s).thread ≡ joinable s.thread)
        × ((advance_from t s).paused ≡ s.paused)
  unfolding advance_from
  advance_from-keeps absent s e = ground arith
  advance_from-keeps (starting d) s e = ground arith
  advance_from-keeps delaying s e = ground arith
  advance_from-keeps at_park s e = ground arith
  advance_from-keeps asleep s e = ground arith
  advance_from-keeps cleared s e = ground arith
  advance_from-keeps working s e = ground arith
  advance_from-keeps between s e = ground arith
  advance_from-keeps exited s e = ground arith

  apply-IsConsistent : (e : Event W) (s : State W) → IsConsistent s → IsConsistent (apply e s)
  unfolding apply set_workload start request_end join pause resume advance stir
  apply-IsConsistent (sets w) s v = ground arith
  apply-IsConsistent (starts w d) s v = ground arith
  apply-IsConsistent requests s v = ground (arith, joinable-notified s.thread)
  apply-IsConsistent joins s v = ground arith
  apply-IsConsistent pauses s v = ground (arith, joinable-notified s.thread)
  apply-IsConsistent resumes s v = ground (arith, joinable-notified s.thread)
  apply-IsConsistent stirs s v = ground (arith, joinable-notified s.thread)
  apply-IsConsistent advances s v = ground (arith, advance_from-keeps s.thread s refl)

  run_from-IsConsistent :
      (es : List (Event W)) (s : State W) → IsConsistent s → IsConsistent (run es s)
  unfolding run
  run_from-IsConsistent [] s v = v
  run_from-IsConsistent (e ∷ es) s v =
      run_from-IsConsistent es (apply e s) (apply-IsConsistent e s v)

  -- Whatever is called and whatever the thread does, `_terminate` is set only while a call of
  -- `terminate()` waits for the thread to end; without a thread it is not set, so that a thread
  -- started later does not see it.
  pub run-IsConsistent :
      (workload : Option W) (es : List (Event W)) → IsConsistent (run es (create workload))
  run-IsConsistent workload es = run_from-IsConsistent es (create workload) (refl, λ _. refl)

  advance_from-Ends :
      (t : Thread) (s : State W)
      → s.thread ≡ t
      → Ends s
      → committed (advance_from t s) ≡ committed s
  unfolding advance_from Ends
  advance_from-Ends absent s e v = ground arith
  advance_from-Ends (starting d) s e v = ground arith
  advance_from-Ends delaying s e v = ground arith
  advance_from-Ends at_park s e v = ground arith
  advance_from-Ends asleep s e v = ground arith
  advance_from-Ends cleared s e v = ground arith
  advance_from-Ends working s e v = ground arith
  advance_from-Ends between s e v = ground arith
  advance_from-Ends exited s e v = ground arith

  apply-Ends :
      (e : Event W) (s : State W)
      → is_starts e ≡ false
      → Ends s
      → Ends (apply e s) × (committed (apply e s) ≡ committed s)
  unfolding apply set_workload start request_end join pause resume advance stir Ends
  apply-Ends (sets w) s h v = ground arith
  apply-Ends (starts w d) s h v = ground arith
  apply-Ends requests s h v =
      ground (arith, joinable-notified s.thread, cleared_calls-notified s.thread)
  apply-Ends joins s h v = ground arith
  apply-Ends pauses s h v =
      ground (arith, joinable-notified s.thread, cleared_calls-notified s.thread)
  apply-Ends resumes s h v =
      ground (arith, joinable-notified s.thread, cleared_calls-notified s.thread)
  apply-Ends stirs s h v =
      ground (arith, joinable-notified s.thread, cleared_calls-notified s.thread)
  apply-Ends advances s h v =
      ground (arith, advance_from-keeps s.thread s refl, advance_from-Ends s.thread s refl v)

  run-Ends :
      (es : List (Event W)) (s : State W)
      → All (λ e. is_starts e ≡ false) es
      → Ends s
      → committed (run es s) ≡ committed s
  unfolding run
  run-Ends [] s h v = refl
  run-Ends (e ∷ es) s (h, hs) v =
      let (v', same) = apply-Ends e s h v in run-Ends es (apply e s) hs v' ∙ same

  -- Once `terminate()` has raised the flag, the workload is called before the next `start()` only if
  -- the thread was past its wait by then and about to call it, and then once; whatever else is
  -- called.
  pub terminate_stops :
      (es : List (Event W)) (s : State W)
      → All (λ e. is_starts e ≡ false) es
      → (run es (request_end s)).calls ≤ s.calls + cleared_calls s.thread
  unfolding request_end Ends
  terminate_stops es s h = elim (Bool-cases (joinable s.thread)) [
    | inl live ↦ ground (
      arith,
      run-Ends es (request_end s) h,
      joinable-notified s.thread,
      cleared_calls-notified s.thread,
    )
    | inr gone ↦ ground (arith, run-Ends es (request_end s) h)
  ]

  ends_from :
      (t : Thread) (s : State W)
      → s.thread ≡ t
      → joinable t ≡ true
      → (run (advances ∷ advances ∷ advances ∷ advances ∷ joins ∷ []) (request_end s)).thread
        ≡ absent
  unfolding run apply advance advance_from request_end join
  ends_from absent s e h = ground arith
  ends_from (starting d) s e h = elim (Option-cases s.workload) [
    | inl empty ↦ ground arith
    | inr (w, given) ↦ elim (Bool-cases (d == 0)) [
      | inl now ↦ ground arith
      | inr later ↦ ground arith
    ]
  ]
  ends_from delaying s e h = ground arith
  ends_from at_park s e h = ground arith
  ends_from asleep s e h = ground arith
  ends_from cleared s e h = ground arith
  ends_from working s e h = ground arith
  ends_from between s e h = ground arith
  ends_from exited s e h = ground arith

  -- `terminate()` returns: wherever the thread stands, also asleep in the wait while paused, once
  -- the flag is raised and the thread notified four moves of it at most bring it to its end, and then
  -- the join succeeds.
  pub terminate_returns :
      (s : State W)
      → joinable s.thread ≡ true
      → (run (advances ∷ advances ∷ advances ∷ advances ∷ joins ∷ []) (request_end s)).thread
        ≡ absent
  terminate_returns s h = ends_from s.thread s refl h
