-- ===== src/Batch.antt =====
-- threading/cthreadpool.h: `thread_pool_detail::ParallelBatchState` and `drainIndices`, on which
-- `parallelFor` and `parallelForAsync` rest. Any number of threads drain one batch, interleaved in
-- any order; a step is one atomic operation, or a call of `fn` or of `onAllCompleted`.
pub mod Exactly
pub mod Alone
pub mod Parallel
use cpputils.Base.{
  ℕ, zero, suc, ◌+◌, ◌<◌, ◌≡◌, List, [], ◌∷◌, Option, none, some, Bool, true, false, leb, ◌==◌,
  if◌then◌else◌, add64, u64_mod, update,
}

-- `nextIndex`, `completedCount` and `count`, and a record of what has happened: the indices with
-- which `fn` has been called, the last first, and how often `onAllCompleted` has been called.
pub record Batch : Type 0 where
  pub next_index : ℕ
  pub completed_count : ℕ
  pub count : ℕ
  pub called : List ℕ
  pub all_completed_calls : ℕ

-- The constructor.
abbrev pub create : ℕ → Batch
create n = record {
  next_index = 0;
  completed_count = 0;
  count = n;
  called = [];
  all_completed_calls = 0;
}

-- `nextIndex.fetch_add(1)` and the test that follows it. `none`: the indices have run out.
unfoldable pub next : Batch → Option ℕ × Batch
next b =
    let b' = record b { next_index = add64 b.next_index 1 } in
    if leb b.count b.next_index then (none, b') else (some b.next_index, b')

-- `fn(index)`
abbrev pub call : ℕ → Batch → Batch
call i b = record b { called = i ∷ b.called }

-- `completedCount.fetch_add(1) + 1 == count`
unfoldable pub complete : Batch → Bool × Batch
complete b =
    let now = add64 b.completed_count 1 in (now == b.count, record b { completed_count = now })

-- `onAllCompleted()`
abbrev pub call_all_completed : Batch → Batch
call_all_completed b = record b { all_completed_calls = b.all_completed_calls + 1 }

-- Where a thread stands in `drainIndices`.
pub data Pc : Type 0 where
  out : Pc
  fetching : Pc
  calling : ℕ → Pc  -- before `fn(index)`
  in_fn : Pc  -- `fn` runs
  completing : Pc  -- before `completedCount.fetch_add(1)`
  last : Pc  -- before `onAllCompleted()`

pub data Move (b : Batch) : Pc → Batch → Pc → Type 0 where
  enter : Move b out b fetching
  fetch :
      {i : ℕ} {b' : Batch}
      → b.next_index + 1 < u64_mod
      → next b ≡ (some i, b')
      → Move b fetching b' (calling i)
  leave : {b' : Batch} → b.next_index + 1 < u64_mod → next b ≡ (none, b') → Move b fetching b' out
  calls : {i : ℕ} → Move b (calling i) (call i b) in_fn
  -- `fn` returns, or throws and is contained
  returns : Move b in_fn b completing
  completes : {b' : Batch} → complete b ≡ (false, b') → Move b completing b' fetching
  completes_last : {b' : Batch} → complete b ≡ (true, b') → Move b completing b' last
  finishes : Move b last (call_all_completed b) fetching

pub record System : Type 0 where
  pub batch : Batch
  pub pc : ℕ → Pc

-- `n` threads, of which none drains yet.
abbrev pub init : ℕ → System
init count = record { batch = create count; pc = λ _. out }

pub data Step (n : ℕ) (y : System) : System → Type 0 where
  step :
      (i : ℕ) {b : Batch} {p : Pc}
      → i < n
      → Move y.batch (y.pc i) b p
      → Step n y (record { batch = b; pc = update y.pc i p })

pub data Reach (n count : ℕ) : System → Type 0 where
  start : Reach n count (init count)
  later : {y z : System} → Reach n count y → Step n y z → Reach n count z

-- `drainIndices` by a thread with nobody else at work. The fuel bounds the rounds; `none`: it is
-- used up.
unfoldable pub drain_indices : ℕ → Batch → Option Batch
unfolding next complete
drain_indices zero b = none
drain_indices (suc rounds) b =
    let (found, b₁) = next b in
    elim found [
      | none ↦ some b₁
      | some i ↦
          let (is_last, b₂) = complete (call i b₁) in
          drain_indices rounds (if is_last then call_all_completed b₂ else b₂)
    ]
