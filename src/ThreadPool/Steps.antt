-- ===== src/ThreadPool/Steps.antt =====
-- The pool's threads, interleaved in any order. A step is what a thread does between two points at
-- which another may act: one atomic operation, or one critical section. A thread has a stack of
-- calls, since a task that runs may itself enqueue and retire. Any thread may act as a worker, on
-- any lane: the order in which a worker looks at the lanes is in ThreadPool/Stealing.
use cpputils.Base.{
  ℕ, ◌+◌, ◌<◌, ◌≡◌, List, [], ◌∷◌, none, some, true, false, length, get_elem?, set, update, add64,
  sub64, u64_mod,
}
use cpputils.BlockingQueue.{Queue, push, try_pop, remove_if}
use cpputils.ThreadPool.Tags.{
  TagState, find, deref, modify, erase_own, outstanding_at, count_down, set_retired,
}
use cpputils.ThreadPool.State.{
  TaggedTask, State, create_state, select_lane, register, tagged_task_can_run, complete_tagged_task,
  points_to,
}

-- A call in progress, with the local variables that are live there.
pub data Frame (T : Type 0) : Type 0 where
  -- `enqueue`: with the lane picked; past `register`; past `++queuedCount`; past the push
  picked : ℕ → T → ℕ → Frame T
  registered : ℕ → TaggedTask T → Frame T
  counted : ℕ → TaggedTask T → Frame T
  -- a task popped by a worker or by the drain; past `--queuedCount`; running; before
  -- `completeTaggedTask`
  popped : TaggedTask T → Frame T
  taken : TaggedTask T → Frame T
  running : TaggedTask T → Frame T
  finished : TaggedTask T → Frame T
  -- a task popped by `abandonAllThreads`, which will not run it
  discarded : TaggedTask T → Frame T
  -- `retire`, with the tag and the pointer: the next lane to sweep and the count so far; past
  -- `queuedCount -= removedCount`; waiting
  sweeping : ℕ → ℕ → ℕ → ℕ → Frame T
  swept : ℕ → ℕ → ℕ → Frame T
  waiting : ℕ → ℕ → Frame T

-- `n` threads over one pool.
pub record System (T : Type 0) : Type 0 where
  pub state : State T
  pub calls : ℕ → List (Frame T)

-- A new pool of `num_threads` workers, in which no call has been made.
abbrev pub init : {T : Type 0} → ℕ → System T
init num_threads = record { state = create_state num_threads; calls = λ _. [] }

module _ {T : Type 0} (lane_mod : ℕ → ℕ) where
  -- One step of a thread. The premises `< u64_mod` say that the counters' values fit a `size_t`:
  -- each counted task takes up memory.
  pub data Move (s : State T) : List (Frame T) → State T → List (Frame T) → Type 0 where
    -- `enqueue(task, tag)`, called by anybody, also by a task that runs
    pick :
        {fs : List (Frame T)} (task : T) (tag : ℕ)
        → Move s fs (select_lane lane_mod s).1 (picked (select_lane lane_mod s).0 task tag ∷ fs)
    registers :
        {fs : List (Frame T)} {lane tag : ℕ} {task : T} {item : TaggedTask T} {s' : State T}
        → register task tag s ≡ (some item, s')
        → ((p : ℕ) → outstanding_at p s.tags + 1 < u64_mod)
        → Move s (picked lane task tag ∷ fs) s' (registered lane item ∷ fs)
    refuses :
        {fs : List (Frame T)} {lane tag : ℕ} {task : T} {s' : State T}
        → register task tag s ≡ (none, s')
        → Move s (picked lane task tag ∷ fs) s' fs
    counts :
        {fs : List (Frame T)} {lane : ℕ} {item : TaggedTask T}
        → s.queued_count + 1 < u64_mod
        → Move s
            (registered lane item ∷ fs)
            (record s { queued_count = add64 s.queued_count 1 })
            (counted lane item ∷ fs)
    pushes :
        {fs : List (Frame T)} {lane n : ℕ} {item : TaggedTask T} {q q' : Queue (TaggedTask T)}
        → get_elem? s.lanes lane ≡ some q
        → push [] q item ≡ some (q', n)
        → Move s (counted lane item ∷ fs) (record s { lanes = set s.lanes lane q' }) fs
    -- the push throws
    unwinds :
        {fs : List (Frame T)} {lane : ℕ} {item : TaggedTask T}
        → Move s
            (counted lane item ∷ fs)
            (record s { queued_count = sub64 s.queued_count 1 })
            (finished item ∷ fs)
    -- `tryGetTask` and the drain of `finishAllThreads`
    pops :
        {fs : List (Frame T)} (lane : ℕ) {item : TaggedTask T} {q q' : Queue (TaggedTask T)}
        → get_elem? s.lanes lane ≡ some q
        → try_pop q ≡ (q', some item)
        → Move s fs (record s { lanes = set s.lanes lane q' }) (popped item ∷ fs)
    takes :
        {fs : List (Frame T)} {item : TaggedTask T}
        → Move s
            (popped item ∷ fs)
            (record s { queued_count = sub64 s.queued_count 1 })
            (taken item ∷ fs)
    starts :
        {fs : List (Frame T)} {item : TaggedTask T}
        → tagged_task_can_run item.tag_state s ≡ true
        → Move s (taken item ∷ fs) s (running item ∷ fs)
    skips :
        {fs : List (Frame T)} {item : TaggedTask T}
        → tagged_task_can_run item.tag_state s ≡ false
        → Move s (taken item ∷ fs) s (finished item ∷ fs)
    -- the task returns or throws, and the exception is contained
    returns :
        {fs : List (Frame T)} {item : TaggedTask T}
        → Move s (running item ∷ fs) s (finished item ∷ fs)
    completes :
        {fs : List (Frame T)} {item : TaggedTask T}
        → Move s (finished item ∷ fs) (complete_tagged_task item.tag_state s) fs
    -- `abandonAllThreads`
    stops : {fs : List (Frame T)} → Move s fs (record s { terminate = true }) fs
    abandons :
        {fs : List (Frame T)} (lane : ℕ) {item : TaggedTask T} {q q' : Queue (TaggedTask T)}
        → get_elem? s.lanes lane ≡ some q
        → try_pop q ≡ (q', some item)
        → Move s fs (record s { lanes = set s.lanes lane q' }) (discarded item ∷ fs)
    drops :
        {fs : List (Frame T)} {item : TaggedTask T}
        → Move s
            (discarded item ∷ fs)
            (record s { queued_count = sub64 s.queued_count 1 })
            (finished item ∷ fs)
    -- `retire(tag)`, of a tag that is not being retired already: the code asserts this
    retires :
        {fs : List (Frame T)} (tag p : ℕ) {st : TagState}
        → find tag s.tags.nodes ≡ some p
        → deref p s.tags.nodes ≡ some st
        → st.retired ≡ false
        → Move s fs
            (record s { tags = record s.tags { nodes = modify p set_retired s.tags.nodes } })
            (sweeping tag p 0 0 ∷ fs)
    sweeps :
        {fs : List (Frame T)} {tag p lane removed n : ℕ} {q q' : Queue (TaggedTask T)}
        → get_elem? s.lanes lane ≡ some q
        → remove_if (points_to p) q ≡ (q', n)
        → Move s
            (sweeping tag p lane removed ∷ fs)
            (record s { lanes = set s.lanes lane q' })
            (sweeping tag p (lane + 1) (removed + n) ∷ fs)
    uncounts :
        {fs : List (Frame T)} {tag p lane removed : ℕ}
        → lane ≡ length s.lanes
        → Move s
            (sweeping tag p lane removed ∷ fs)
            (record s { queued_count = sub64 s.queued_count removed })
            (swept tag p removed ∷ fs)
    waits :
        {fs : List (Frame T)} {tag p removed : ℕ}
        → Move s
            (swept tag p removed ∷ fs)
            (record s {
              tags = record s.tags { nodes = modify p (count_down removed) s.tags.nodes };
            })
            (waiting tag p ∷ fs)
    ends :
        {fs : List (Frame T)} {tag p : ℕ} {st : TagState}
        → deref p s.tags.nodes ≡ some st
        → st.outstanding ≡ 0
        → Move s (waiting tag p ∷ fs) (record s { tags = erase_own tag p s.tags }) fs

  pub data Step (n : ℕ) (y : System T) : System T → Type 0 where
    step :
        (i : ℕ) {s : State T} {fs : List (Frame T)}
        → i < n
        → Move y.state (y.calls i) s fs
        → Step n y (record { state = s; calls = update y.calls i fs })

  -- Any number of steps.
  pub data Run (n : ℕ) (y : System T) : System T → Type 0 where
    here : Run n y y
    later : {z u : System T} → Run n y z → Step n z u → Run n y u

  abbrev pub Reach : ℕ → ℕ → System T → Type 0
  Reach n num_threads = Run n (init num_threads)

  pub Run-trans : {n : ℕ} {y z u : System T} → Run n y z → Run n z u → Run n y u
  Run-trans r here = r
  Run-trans r (later r' st) = later (Run-trans r r') st
