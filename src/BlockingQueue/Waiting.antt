-- ===== src/BlockingQueue/Waiting.antt =====
-- The operations that may wait: `push` on a full queue, and the wait with a wake condition.
use cpputils.Base.{
  ℕ, zero, suc, ◌+◌, ◌≤◌, ◌<◌, ◌≡◌, refl, sym, List, [], ◌∷◌, ◌++◌, none, some, Bool, true, not,
  ◌||◌, length, arith, Bool-cases, inl, inr,
}
use cpputils.BlockingQueue.{Queue, push, wait_for_item_or, is_empty}

module _ {ℓ} {A : Type ℓ} where
  -- The queue that the caller finds in round `k` of its loop.
  abbrev pub found : List (Queue A → Queue A) → Queue A → ℕ → Queue A
  found rounds q zero = q
  found [] q (suc k) = q
  found (others ∷ rounds) q (suc k) = found rounds (others q) k

  abbrev pub IsFull : Queue A → Type 0
  IsFull q = q.max_size ≤ length q.items

  -- Whatever other threads do meanwhile, `push` appends the item at the first round at which there
  -- is room, and to no other round's queue, and reports the length that results; it returns if there
  -- is such a round.
  pub push-found :
      (rounds : List (Queue A → Queue A)) (q : Queue A) (x : A) (k : ℕ)
      → k ≤ length rounds
      → ((j : ℕ) → j < k → IsFull (found rounds q j))
      → ¬ IsFull (found rounds q k)
      → let room = found rounds q k in
        push rounds q x ≡ some (record room { items = room.items ++ x ∷ [] }, length room.items + 1)
  unfolding push
  push-found [] q x zero h full room = ground arith
  push-found [] q x (suc k) h full room = absurd (omega arith)
  push-found (others ∷ rounds) q x zero h full room = ground arith
  push-found (others ∷ rounds) q x (suc k) h full room = ground (
    arith,
    full 0 (omega arith),
    push-found rounds (others q) x k (omega arith) (λ j lt. full (suc j) (omega arith)) room,
  )

  -- As long as every round finds the queue full, `push` has not returned.
  pub push_blocked :
      (rounds : List (Queue A → Queue A)) (q : Queue A) (x : A)
      → ((j : ℕ) → j ≤ length rounds → IsFull (found rounds q j))
      → push rounds q x ≡ none
  unfolding push
  push_blocked [] q x full = ground (arith, full 0 (omega arith))
  push_blocked (others ∷ rounds) q x full = ground (
    arith,
    full 0 (omega arith),
    push_blocked rounds (others q) x (λ j le. full (suc j) (omega arith)),
  )

  abbrev condition_holds {κ} : {W : Type κ} → (W → Bool) → Queue A × W → Bool
  condition_holds extra s = not (is_empty s.0) || extra s.1

  -- The wait with a condition says truly whether the queue that it returns with is non-empty or the
  -- extra condition holds, and if that is so at the call, nobody else acts before it returns.
  pub wait_for_item_or_lem {κ} :
      {W : Type κ} (extra : W → Bool) (wakeups : List (Queue A × W → Queue A × W)) (s : Queue A × W)
      → let (woken, q, w) = wait_for_item_or extra wakeups s in
        (woken ≡ condition_holds extra (q, w))
        × (condition_holds extra s ≡ true → ◌≡◌ {A = Queue A × W} (q, w) s)
  unfolding wait_for_item_or
  wait_for_item_or_lem extra [] s = (refl, λ _. refl)
  wait_for_item_or_lem extra (others ∷ wakeups) s = elim (Bool-cases (condition_holds extra s)) [
    | inl holds ↦ rw holds (sym holds, λ _. refl)
    | inr fails ↦ rw fails ((wait_for_item_or_lem extra wakeups (others s)).0, λ e. cc)
  ]
