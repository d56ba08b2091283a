-- ===== src/InterruptableThread/Cancellation.antt =====
-- A run of the payload lies within one `start` and `join`, and sees requests made since its start.
use cpputils.Base.{
  ℕ, suc, Bool-cases, ◌≡◌, inl, inr, refl, List, ◌++◌, Bool, true, false, replicate, arith,
}
use cpputils.InterruptableThread.{
  Thread, start, request_cancellation, join, polls_flag, ends, Step, runs, starts, requests, joins,
  Reach, created, later, Waits, here, on, Destroys,
}

abbrev IsSound : Thread → Type 0
IsSound t = t.is_running ≡ true → t.joinable ≡ true

Step-IsSound : {t u : Thread} → Step t u → IsSound t → IsSound u
unfolding start join request_cancellation
Step-IsSound {t} (runs (polls_flag r)) v = λ h. v r
Step-IsSound {t} (runs (ends r)) v = λ h. ground arith
Step-IsSound {t} (starts e) v = ground arith
Step-IsSound {t} requests v = v
Step-IsSound {t} (joins e) v = ground (arith, v)

Reach-IsSound : {t : Thread} → Reach t → IsSound t
Reach-IsSound created = λ h. ground arith
Reach-IsSound (later r st) = Step-IsSound st (Reach-IsSound r)

-- Reads since some point of a run, all of them `true`.
abbrev pub AllTrue : List Bool → List Bool → Type 0
AllTrue before now = (n : ℕ) × (now ≡ replicate n true ++ before)

Waits-reads :
    {t u : Thread}
    → Waits t u
    → t.cancellation_requested ≡ true
    → IsSound t
    → (u.cancellation_requested ≡ true) × IsSound u × AllTrue t.polls u.polls
Waits-reads {t} here c v = (c, v, (0, refl))
Waits-reads {t} (on {u} w (polls_flag r)) c v =
    let (c', v', (n, e)) = Waits-reads w c v in (c', v', (suc n, ground arith))
Waits-reads {t} (on {u} w (ends r)) c v =
    let (c', v', reads) = Waits-reads w c v in (c', (λ h. ground arith), reads)

-- When the destructor is past its `join`, no payload runs and the `std::thread` is not joinable, so
-- that its own destructor does not terminate the process; and each time the payload read the flag
-- meanwhile it read `true`.
pub destructor_lem :
    {t u : Thread}
    → Reach t
    → Destroys t u
    → (u.is_running ≡ false) × (u.joinable ≡ false) × AllTrue t.polls u.polls
unfolding join request_cancellation
destructor_lem {t} {u} r (v, w, e) =
    let (c, s, reads) = Waits-reads w refl (Reach-IsSound r) in ground (arith, s)

-- In a run of the payload, once it has read `true` from the flag it reads `true` each time, whatever
-- the owner does, and it reads `false` only where no cancellation has been requested since `start`.
polls-IsMonotone :
    {t : Thread}
    → Reach t
    → (n : ℕ) × (m : ℕ) × (t.polls ≡ replicate n true ++ replicate m false)
      × (t.cancellation_requested ≡ false → n ≡ 0)
unfolding start join request_cancellation
polls-IsMonotone created = (0, 0, refl, λ h. refl)
polls-IsMonotone (later {t} r (runs (polls_flag running))) =
    let (n, m, e, none_read) = polls-IsMonotone r in
    elim (Bool-cases t.cancellation_requested) [
      | inl yes_now ↦ (suc n, m, ground arith, λ h. ground arith)
      | inr not_yet ↦ (0, suc m, ground (arith, none_read not_yet), λ h. refl)
    ]
polls-IsMonotone (later {t} r (runs (ends running))) = polls-IsMonotone r
polls-IsMonotone (later {t} r (starts e)) = (0, 0, ground arith, λ h. refl)
polls-IsMonotone (later {t} r requests) =
    let (n, m, e, none_read) = polls-IsMonotone r in (n, m, e, λ h. ground arith)
polls-IsMonotone (later {t} r (joins e)) =
    let (n, m, e', none_read) = polls-IsMonotone r in
    (n, m, ground arith, λ h. ground (arith, none_read))
