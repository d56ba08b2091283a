-- ===== src/Batch/Alone.antt =====
-- One thread alone completes the whole range, as the calling thread of `parallelFor` may have to.
use cpputils.Base.{
  ℕ, zero, suc, ◌+◌, ◌<◌, ◌≡◌, ◌∙◌, List, [], ◌∷◌, some, arith, one_if, u64_mod, ◌==◌,
}
use cpputils.Batch.{Batch, create, drain_indices}

-- k - 1, k - 2, ..., 0
abbrev pub countdown : ℕ → List ℕ
countdown zero = []
countdown (suc k) = k ∷ countdown k

-- A batch of which the first `k` indices are done and nobody is at work.
abbrev part : ℕ → ℕ → Batch
part count k = record {
  next_index = k;
  completed_count = k;
  count = count;
  called = countdown k;
  all_completed_calls = one_if (k == count);
}

drain_round :
    (rounds count k : ℕ)
    → k < count
    → count + 1 < u64_mod
    → drain_indices (suc rounds) (part count k) ≡ drain_indices rounds (part count (suc k))
unfolding drain_indices
drain_round rounds count k lt small = ground arith

drain_from :
    (rounds count k left : ℕ)
    → k + left ≡ count
    → left < rounds
    → count + 1 < u64_mod
    → 0 < count
    → drain_indices rounds (part count k)
      ≡ some (record {
        next_index = count + 1;
        completed_count = count;
        count = count;
        called = countdown count;
        all_completed_calls = 1;
      })
unfolding drain_indices
drain_from zero count k left e lt small pos_count = absurd (omega arith)
drain_from (suc rounds) count k zero e lt small pos_count =
    let e' : k ≡ count = omega arith in ground arith
drain_from (suc rounds) count k (suc left) e lt small pos_count =
    drain_round rounds count k (omega arith) small
    ∙ drain_from rounds count (suc k) left (omega arith) (omega arith) small pos_count

-- With fuel for `count + 1` rounds the thread leaves the loop, having called `fn` with 0 to
-- `count - 1` in this order and then `onAllCompleted` once. (`count + 1` fits a `size_t`.)
pub drain_indices-alone :
    (count rounds : ℕ)
    → 0 < count
    → count + 1 < u64_mod
    → count < rounds
    → drain_indices rounds (create count)
      ≡ some (record {
        next_index = count + 1;
        completed_count = count;
        count = count;
        called = countdown count;
        all_completed_calls = 1;
      })
drain_indices-alone count rounds pos_count small lt =
    let fresh : create count ≡ part count 0 = ground arith in
    rw fresh (drain_from rounds count 0 count (omega arith) lt small pos_count)
