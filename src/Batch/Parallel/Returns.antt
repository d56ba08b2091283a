-- ===== src/Batch/Parallel/Returns.antt =====
-- When `parallelFor` returns its work is done, and it cannot wait for ever.
use cpputils.Base.{
  ℕ, zero, suc, ◌+◌, ◌<◌, ◌≡◌, refl, ltb, total, arith, u64_mod, one_if, Bool, true, false, some,
  Bool-cases, inl, inr,
}
use cpputils.Batch.{Batch, Pc, create, call, out}
use cpputils.Batch.Exactly.{times, is_busy, announced-last, drained}
use cpputils.Batch.Alone.{countdown, drain_indices-alone}
use cpputils.Batch.Parallel.{
  Call, CallerPc, Reach, enqueuing, draining, waiting, checked, asleep, returned, is_done,
  parallel_for, parallel_for_alone,
}
use cpputils.Batch.Parallel.Invariant.{has_left, is_unaware, Reach-Inv}

-- When `parallelFor` has shared a batch and returns, no call of `fn` is in progress and there has
-- been one call for each index below `count`, whatever the workers do.
pub parallel_for-returned :
    {n count helpers : ℕ} {c : Call} (i : ℕ)
    → 0 < n
    → Reach n count helpers c
    → c.caller ≡ returned
    → (total is_busy n c.threads.pc ≡ 0) × (times i c.threads.batch.called ≡ one_if (ltb i count))
unfolding is_done
parallel_for-returned {n} {count} {helpers} {c} i pos r back =
    let v = Reach-Inv pos r in
    let (once, idle, all) = announced-last i v.reaches (ground (arith, v.announced back)) in
    (idle, all)

-- In the wait for `done`.
abbrev pub is_in_wait : CallerPc → Bool
is_in_wait waiting = true
is_in_wait checked = true
is_in_wait asleep = true
is_in_wait _ = false

in_wait-left : (pc : CallerPc) (p : Pc) → is_in_wait pc ≡ true → has_left pc p ≡ true
in_wait-left (enqueuing k) p h = absurd (ground arith)
in_wait-left draining p h = absurd (ground arith)
in_wait-left waiting p h = refl
in_wait-left checked p h = refl
in_wait-left asleep p h = refl
in_wait-left returned p h = absurd (ground arith)

awake : (pc : CallerPc) → is_in_wait pc ≡ true → is_unaware pc ≡ false → pc ≡ waiting
awake (enqueuing k) h free = absurd (ground arith)
awake draining h free = absurd (ground arith)
awake waiting h free = refl
awake checked h free = absurd (ground arith)
awake asleep h free = absurd (ground arith)
awake returned h free = absurd (ground arith)

-- The notification is not lost and the wait of `parallelFor` ends: where the caller is in the wait
-- and no helper is at work, `done` is set, and the caller is not blocked, nor about to block, but
-- looks at `done` next, also if helper tasks are still queued.
pub parallel_for-wakes :
    {n count helpers : ℕ} {c : Call}
    → 0 < n
    → 0 < count
    → Reach n count helpers c
    → is_in_wait c.caller ≡ true
    → ((j : ℕ) → c.threads.pc j ≡ out)
    → (is_done c.threads.batch ≡ true) × (c.caller ≡ waiting)
unfolding is_done
parallel_for-wakes {n} {count} {helpers} {c} pos pos_count r waits all_out =
    let v = Reach-Inv pos r in
    let (all, once) =
      drained 0 v.reaches pos_count (v.left (in_wait-left c.caller _ waits)) all_out in
    let done : is_done c.threads.batch ≡ true = ground arith in
    (
      done,
      awake c.caller waits (elim (Bool-cases (is_unaware c.caller)) [
        | inl blocked ↦ absurd (ground (arith, v.unaware blocked))
        | inr free ↦ free
      ]),
    )

-- With every worker busy elsewhere `parallelFor` still returns, having called `fn` with 0 to
-- `count - 1` in this order. (`count + 1` fits a `size_t`; a batch takes `count + 1` rounds.)
pub parallel_for_alone_lem :
    (max_threads count rounds : ℕ)
    → count + 1 < u64_mod
    → count < rounds
    → (b : Batch) × (parallel_for_alone max_threads rounds count ≡ some b)
      × (b.called ≡ countdown count)
unfolding parallel_for_alone is_done parallel_for
parallel_for_alone_lem max_threads zero rounds fits enough = (create 0, refl, refl)
parallel_for_alone_lem max_threads (suc zero) rounds fits enough = (call 0 (create 1), refl, refl)
parallel_for_alone_lem max_threads (suc (suc k)) rounds fits enough = (
  record {
    next_index = suc (suc k) + 1;
    completed_count = suc (suc k);
    count = suc (suc k);
    called = countdown (suc (suc k));
    all_completed_calls = 1;
  },
  ground (arith, drain_indices-alone (suc (suc k)) rounds (omega arith) fits enough),
  refl,
)
