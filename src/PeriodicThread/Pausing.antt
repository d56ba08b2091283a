-- ===== src/PeriodicThread/Pausing.antt =====
-- Pausing.
use cpputils.Base.{◌+◌, ◌≤◌, ◌≡◌, refl, ◌∙◌, List, [], ◌∷◌, Bool, true, false, arith, All}
use cpputils.PeriodicThread.{
  Thread, absent, starting, delaying, at_park, asleep, cleared, working, between, exited, State,
  joinable, set_workload, start, request_end, join, pause, resume, advance, advance_from, Event,
  sets, starts, requests, joins, pauses, resumes, advances, stirs, stir, apply, run,
}
use cpputils.PeriodicThread.Shutdown.{
  cleared_calls, cleared_calls-notified, committed, advance_from-keeps,
}

abbrev pub is_resumes : {W : Type 0} → Event W → Bool
is_resumes resumes = true
is_resumes _ = false

uncleared : (t : Thread) → joinable t ≡ false → cleared_calls t ≡ 0
uncleared absent h = refl
uncleared (starting d) h = refl
uncleared cleared h = absurd (ground arith)
uncleared t h = ground arith

module _ {W : Type 0} where
  advance_from-paused :
      (t : Thread) (s : State W)
      → s.thread ≡ t
      → s.paused ≡ true
      → committed (advance_from t s) ≡ committed s
  unfolding advance_from
  advance_from-paused absent s e h = ground arith
  advance_from-paused (starting d) s e h = ground arith
  advance_from-paused delaying s e h = ground arith
  advance_from-paused at_park s e h = ground arith
  advance_from-paused asleep s e h = ground arith
  advance_from-paused cleared s e h = ground arith
  advance_from-paused working s e h = ground arith
  advance_from-paused between s e h = ground arith
  advance_from-paused exited s e h = ground arith

  apply-paused :
      (e : Event W) (s : State W)
      → is_resumes e ≡ false
      → s.paused ≡ true
      → ((apply e s).paused ≡ true) × (committed (apply e s) ≡ committed s)
  unfolding apply set_workload start request_end join pause resume advance stir
  apply-paused (sets w) s h v = ground arith
  apply-paused (starts w d) s h v = ground (arith, uncleared s.thread)
  apply-paused requests s h v = ground (arith, cleared_calls-notified s.thread)
  apply-paused joins s h v = ground arith
  apply-paused pauses s h v = ground (arith, cleared_calls-notified s.thread)
  apply-paused resumes s h v = ground arith
  apply-paused stirs s h v = ground (arith, cleared_calls-notified s.thread)
  apply-paused advances s h v =
      ground (arith, advance_from-keeps s.thread s refl, advance_from-paused s.thread s refl v)

  run-paused :
      (es : List (Event W)) (s : State W)
      → All (λ e. is_resumes e ≡ false) es
      → s.paused ≡ true
      → committed (run es s) ≡ committed s
  unfolding run
  run-paused [] s h v = refl
  run-paused (e ∷ es) s (h, hs) v =
      let (v', same) = apply-paused e s h v in run-paused es (apply e s) hs v' ∙ same

  -- After `pause()` no call of the workload begins before `resume()` but the one that the thread was
  -- about to make, not even when the thread is ended and started anew meanwhile.
  pub pause_parks :
      (es : List (Event W)) (s : State W)
      → All (λ e. is_resumes e ≡ false) es
      → (run es (pause s)).calls ≤ s.calls + cleared_calls s.thread
  unfolding pause
  pause_parks es s h =
      ground (arith, run-paused es (pause s) h refl, cleared_calls-notified s.thread)
