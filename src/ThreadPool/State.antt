-- ===== src/ThreadPool/State.antt =====
-- `CThreadPool::State` and what its operations do to it between two points at which another thread
-- may act.
use cpputils.Base.{
  ℕ, List, [], Option, none, some, Bool, true, false, not, ◌==◌, if◌then◌else◌, replicate, add32,
}
use cpputils.BlockingQueue.{Queue, create}
use cpputils.ThreadPool.Tags.{Tags, TagState, deref, modify, try_emplace, count_up, count_down}

-- `TaggedTask`: a pointer to the owner's tag state, none for an untagged task, and the callable.
pub record TaggedTask (T : Type 0) : Type 0 where
  pub tag_state : Option ℕ
  pub task : T

-- The members of `State`. `startedWorkerCount` and the idle-wait group decide nothing here.
pub record State (T : Type 0) : Type 0 where
  pub lanes : List (Queue (TaggedTask T))
  pub terminate : Bool
  pub lane_selector : ℕ
  pub queued_count : ℕ
  pub tags : Tags

-- The default capacity of `CConsumerBlockingQueue`, `int32_max`.
abbrev pub lane_capacity : ℕ
lane_capacity = 0x7fff_ffff

unfoldable pub is_retired : Option TagState → Bool
is_retired none = false
is_retired (some st) = st.retired

module _ {T : Type 0} where
  -- The constructor of `State`.
  unfoldable pub create_state : ℕ → State T
  create_state num_threads = record {
    lanes = replicate num_threads (create lane_capacity);
    terminate = false;
    lane_selector = 0;
    queued_count = 0;
    tags = record { nodes = []; next_address = 0 };
  }

  -- `laneSelectorMod.mod(laneSelector.value.fetch_add(1))`; `lane_mod` is `Math::FastMod32::mod`.
  unfoldable pub select_lane : (ℕ → ℕ) → State T → ℕ × State T
  select_lane lane_mod s =
      (lane_mod s.lane_selector, record s { lane_selector = add32 s.lane_selector 1 })

  -- The part of `enqueue` under `tagStateMutex`. `none`: the tag is retired, and `enqueue` returns 0.
  unfoldable pub register : T → ℕ → State T → Option (TaggedTask T) × State T
  unfolding is_retired try_emplace deref modify
  register task tag s =
      if tag == 0
      then (some (record { tag_state = none; task = task }), s)
      else (let (p, tags) = try_emplace tag s.tags in
          if is_retired (deref p tags.nodes) then (none, record s { tags = tags }) else (
            some (record { tag_state = some p; task = task }),
            record s { tags = record tags { nodes = modify p count_up tags.nodes } },
          ))

  -- `taggedTaskCanRun`
  unfoldable pub tagged_task_can_run : Option ℕ → State T → Bool
  unfolding is_retired deref
  tagged_task_can_run none s = true
  tagged_task_can_run (some p) s = not (is_retired (deref p s.tags.nodes))

  -- `completeTaggedTask`
  unfoldable pub complete_tagged_task : Option ℕ → State T → State T
  unfolding modify
  complete_tagged_task none s = s
  complete_tagged_task (some p) s = record s {
    tags = record s.tags { nodes = modify p (count_down 1) s.tags.nodes };
  }

-- Whether a task counts for the element at an address.
abbrev pub points_to : {T : Type 0} → ℕ → TaggedTask T → Bool
points_to p item = elim item.tag_state [ none ↦ false | some q ↦ q == p ]
