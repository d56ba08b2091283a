-- ===== src/BlockingQueue.antt =====
-- threading/cconsumerblockingqueue.h: `CConsumerBlockingQueue`. Every method body runs under the
-- queue's mutex, so a method is a function of the queue. Where a method lets go of the mutex, what
-- other threads did to the queue meanwhile is an argument, a function `others` or a list of such.
pub mod History
pub mod Waiting
pub mod Laws
use cpputils.Base.{
  ℕ, ◌+◌, ◌-◌, List, [], ◌∷◌, ◌++◌, Option, none, some, Bool, true, false, not, ◌||◌, leb, length,
  keep_if, if◌then◌else◌,
}

-- `_maxSize` and `_queue`, whose head is the front.
pub record Queue {ℓ} (A : Type ℓ) : Type ℓ where
  pub max_size : ℕ
  pub items : List A

-- `QueuePushResult`
pub record PushResult : Type 0 where
  pub pushed : Bool
  pub queue_size : ℕ

module _ {ℓ} {A : Type ℓ} where
  -- The constructor.
  abbrev pub create : ℕ → Queue A
  create max_size = record { max_size = max_size; items = [] }

  unfoldable pub size : Queue A → ℕ
  size q = length q.items

  unfoldable pub is_empty : Queue A → Bool
  is_empty q = elim q.items [ [] ↦ true | x ∷ xs ↦ false ]

  -- `_queue.emplace_back(item)`
  abbrev emplace_back : Queue A → A → Queue A
  emplace_back q x = record q { items = q.items ++ x ∷ [] }

  unfoldable pub try_push : Queue A → A → Queue A × PushResult
  try_push q x =
      if leb q.max_size (length q.items)
      then (q, record { pushed = false; queue_size = length q.items })
      else (emplace_back q x, record { pushed = true; queue_size = length q.items + 1 })

  -- Each round of the loop that finds the queue full unlocks and lets others act. `none`: the
  -- caller is still spinning when the list of rounds ends.
  unfoldable pub push : List (Queue A → Queue A) → Queue A → A → Option (Queue A × ℕ)
  push [] q x =
      if leb q.max_size (length q.items) then none else some (emplace_back q x, length q.items + 1)
  push (others ∷ rounds) q x =
      let again = push rounds (others q) x in
      if leb q.max_size (length q.items) then again else some (emplace_back q x, length q.items + 1)

  -- Moves the front out. `none`: `false`, and the receiver is left as it was.
  front : List A → Queue A → Queue A × Option A
  front [] q = (q, none)
  front (x ∷ xs) q = (record q { items = xs }, some x)

  unfoldable pub try_pop : Queue A → Queue A × Option A
  unfolding front
  try_pop q = front q.items q

  -- One wait, which a notification, the timeout or a spurious wakeup ends.
  unfoldable pub wait_for_item : (Queue A → Queue A) → Queue A → Queue A
  unfolding is_empty
  wait_for_item others q = if is_empty q then others q else q

  unfoldable pub pop : (Queue A → Queue A) → Queue A → Queue A × Option A
  unfolding wait_for_item try_pop
  pop others q = try_pop (wait_for_item others q)

  -- The overload with a wake condition. Each wakeup comes with what others did before it, and the
  -- condition reads the queue and the flags `W` that its owner keeps. The list ends at the timeout.
  -- The Boolean says that the wait ended by the condition.
  unfoldable pub wait_for_item_or {κ} :
      {W : Type κ}
      → (W → Bool)
      → List (Queue A × W → Queue A × W)
      → Queue A × W
      → Bool × Queue A × W
  unfolding is_empty
  wait_for_item_or extra [] (q, w) = (not (is_empty q) || extra w, q, w)
  wait_for_item_or extra (others ∷ wakeups) (q, w) =
      let again = wait_for_item_or extra wakeups (others (q, w)) in
      if not (is_empty q) || extra w then (true, q, w) else again

  -- `std::erase_if`, which returns how many items it erased.
  unfoldable pub remove_if : (A → Bool) → Queue A → Queue A × ℕ
  remove_if p q =
      let kept = keep_if (λ x. not (p x)) q.items in
      (record q { items = kept }, length q.items - length kept)
