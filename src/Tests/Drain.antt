-- ===== src/Tests/Drain.antt =====
-- threading/cthreadpool.cpp: a pool of two lanes with one queued task, which enqueues another.
use cpputils.Base.{
  ℕ, zero, suc, ◌+◌, ◌%◌, ◌≤◌, ◌≡◌, refl, List, [], ◌∷◌, none, some, Bool, get_elem?, arith,
}
use cpputils.BlockingQueue.{Queue}
use cpputils.ThreadPool.State.{TaggedTask, State}
use cpputils.ThreadPool.Lanes.{on_lanes}
use cpputils.ThreadPool.Invariant.{one}
use cpputils.ThreadPool.Drain.{complete_pending_tasks}
use cpputils.ThreadPool.Drain.Keeps.{IsWeight, IsDrainable}
use cpputils.ThreadPool.Drain.Returns.{complete_pending_tasks-drains}

-- A task is how many tasks it leads to, one after the other.
abbrev countdown_tasks : ℕ → List (ℕ × ℕ)
countdown_tasks zero = []
countdown_tasks (suc k) = (k, 0) ∷ []

abbrev tasks_in : ℕ → ℕ
tasks_in k = k + 1

countdown-IsWeight : IsWeight tasks_in countdown_tasks
countdown-IsWeight zero = omega arith
countdown-IsWeight (suc k) = omega arith

abbrev two_lanes : State ℕ
two_lanes = record {
  lanes =
      record { max_size = 8; items = record { tag_state = none; task = 1 } ∷ [] }
      ∷ record { max_size = 8; items = [] }
      ∷ [];
  terminate = Bool.true;
  lane_selector = 1;
  queued_count = 1;
  tags = record { nodes = []; next_address = 0 };
}

abbrev lane_of : ℕ → ℕ
lane_of x = x % 2

lanes_have_room :
    (i : ℕ) (q : Queue (TaggedTask ℕ)) → get_elem? two_lanes.lanes i ≡ some q → 8 ≤ q.max_size
lanes_have_room zero q e = ground arith
lanes_have_room (suc zero) q e = ground arith
lanes_have_room (suc (suc i)) q e = ground arith

two_lanes-IsDrainable : IsDrainable 2 8 two_lanes
two_lanes-IsDrainable = record {
  lane_count = refl;
  has_room = lanes_have_room;
  is_exact = refl;
  selector_fits = omega arith;
}

complete_pending_tasks-drains_example :
    (s : State ℕ) × (complete_pending_tasks lane_of countdown_tasks 20 two_lanes ≡ some s)
    × (on_lanes one s.lanes ≡ 0)
    × (s.queued_count ≡ 0)
complete_pending_tasks-drains_example =
    complete_pending_tasks-drains lane_of countdown_tasks tasks_in countdown-IsWeight 2 8
      (λ x lt. refl) (omega arith) (omega arith) 20 two_lanes two_lanes-IsDrainable (omega arith)
      (omega arith)
