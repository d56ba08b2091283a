-- ===== src/InterruptableThread.antt =====
-- threading/cinterruptablethread.h and .cpp: `CInterruptableThread`. The owner calls the methods
-- while the payload runs; the flag is atomic.
pub mod Cancellation
use cpputils.Base.{ℕ, ◌≡◌, List, [], ◌∷◌, Option, none, some, Bool, true, false, if◌then◌else◌}

-- Whether `_thread` is joinable and `_cancellationRequested`; whether the payload runs, and what it
-- has read from the flag so far in this run, the last first.
pub record Thread : Type 0 where
  pub joinable : Bool
  pub cancellation_requested : Bool
  pub is_running : Bool
  pub polls : List Bool

-- The constructor.
abbrev pub create : Thread
create = record { joinable = false; cancellation_requested = false; is_running = false; polls = [] }

-- `none`: the process is terminated, by an assignment over a joinable `std::thread`.
unfoldable pub start : Thread → Option Thread
start t =
    if t.joinable
    then none
    else some
        (record { joinable = true; cancellation_requested = false; is_running = true; polls = [] })

unfoldable pub request_cancellation : Thread → Thread
request_cancellation t = record t { cancellation_requested = true }

-- `join`; `none`: it waits, since the thread has not ended.
unfoldable pub join : Thread → Option Thread
join t =
    if t.joinable
    then (if t.is_running then none else some (record t { joinable = false }))
    else some t

-- What the thread itself does: the payload reads the flag, or returns or throws.
pub data Runs (t : Thread) : Thread → Type 0 where
  polls_flag :
      t.is_running ≡ true → Runs t (record t { polls = t.cancellation_requested ∷ t.polls })
  ends : t.is_running ≡ true → Runs t (record t { is_running = false })

-- What the owner does, between two moves of the thread.
pub data Step (t : Thread) : Thread → Type 0 where
  runs : {u : Thread} → Runs t u → Step t u
  starts : {u : Thread} → start t ≡ some u → Step t u
  requests : Step t (request_cancellation t)
  joins : {u : Thread} → join t ≡ some u → Step t u

pub data Reach : Thread → Type 0 where
  created : Reach create
  later : {t u : Thread} → Reach t → Step t u → Reach u

-- Moves of the thread while the owner waits.
pub data Waits (t : Thread) : Thread → Type 0 where
  here : Waits t t
  on : {u v : Thread} → Waits t u → Runs u v → Waits t v

-- The destructor: a request, and a join that waits as long as it must.
abbrev pub Destroys : Thread → Thread → Type 0
Destroys t u = (v : Thread) × Waits (request_cancellation t) v × (join v ≡ some u)
