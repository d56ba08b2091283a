-- ===== src/Batch/Exactly.antt =====
-- However the threads interleave: each index is called once, and completion is announced once, last.
use cpputils.Base.{
  ℕ, ◌+◌, ◌-◌, ◌≤◌, ◌<◌, ◌≡◌, refl, List, [], ◌∷◌, ◌==◌, min, one_if, ltb, ap, ◌∙◌, ◌&&◌, arith,
  update, total, total-update, total-le, total_mono, total-eq-zero, u64_mod,
}
use cpputils.Batch.{
  Batch, next, complete, Pc, out, calling, in_fn, completing, last, Move, enter, fetch, leave,
  completes, completes_last, System, Step, step, Reach, start, later,
}

-- How often an index has been called.
abbrev pub times : ℕ → List ℕ → ℕ
times i [] = 0
times i (x ∷ xs) = one_if (x == i) + times i xs

-- A thread that is about to call `fn` with the index; one that has an index and has not completed
-- it; one that is about to announce completion.
abbrev is_calling : ℕ → Pc → ℕ
is_calling i (calling j) = one_if (j == i)
is_calling i _ = 0

abbrev pub is_busy : Pc → ℕ
is_busy (calling _) = 1
is_busy in_fn = 1
is_busy completing = 1
is_busy _ = 0

abbrev pub is_last : Pc → ℕ
is_last last = 1
is_last _ = 0

-- The invariant seen from one thread; the others have `busy`, `announcing` and `pending i` of the
-- three kinds.
record Local (count : ℕ) (b : Batch) (p : Pc) (busy announcing : ℕ) (pending : ℕ → ℕ) : Type 0 where
  size : b.count ≡ count
  fits : b.next_index < u64_mod
  once :
      (i : ℕ)
      → times i b.called + (pending i + is_calling i p) ≡ one_if (ltb i (min b.next_index count))
  progress : b.completed_count + (busy + is_busy p) ≡ min b.next_index count
  announced :
      b.all_completed_calls + (announcing + is_last p)
      ≡ one_if (ltb 0 count && b.completed_count == count)

module _ {count busy announcing : ℕ} {pending : ℕ → ℕ} where
  Move-Local :
      {b b' : Batch} {p p' : Pc}
      → Move b p b' p'
      → Local count b p busy announcing pending
      → Local count b' p' busy announcing pending
  unfolding next complete
  Move-Local {b} enter v = record {
    size = v.size;
    fits = v.fits;
    once = λ i. ground (arith, v.once i);
    progress = v.progress;
    announced = v.announced;
  }
  Move-Local (fetch room e) v = record {
    size = ground arith;
    fits = ground arith;
    once = λ i. ground (arith, v.once i);
    progress = ground arith;
    announced = ground arith;
  }
  Move-Local (leave room e) v = record {
    size = ground arith;
    fits = ground arith;
    once = λ i. ground (arith, v.once i);
    progress = ground arith;
    announced = ground arith;
  }
  Move-Local (completes e) v = record {
    size = ground arith;
    fits = ground arith;
    once = λ i. ground (arith, v.once i);
    progress = ground arith;
    announced = ground arith;
  }
  Move-Local (completes_last e) v = record {
    size = ground arith;
    fits = ground arith;
    once = λ i. ground (arith, v.once i);
    progress = ground arith;
    announced = ground arith;
  }
  Move-Local _ v = record {
    size = ground arith;
    fits = ground arith;
    once = λ i. ground (arith, v.once i);
    progress = ground arith;
    announced = ground arith;
  }

record Inv (n count : ℕ) (y : System) : Type 0 where
  size : y.batch.count ≡ count
  fits : y.batch.next_index < u64_mod
  once :
      (i : ℕ)
      → times i y.batch.called + total (is_calling i) n y.pc
        ≡ one_if (ltb i (min y.batch.next_index count))
  progress : y.batch.completed_count + total is_busy n y.pc ≡ min y.batch.next_index count
  announced :
      y.batch.all_completed_calls + total is_last n y.pc
      ≡ one_if (ltb 0 count && y.batch.completed_count == count)

Step-Inv : {n count : ℕ} {y z : System} → Step n y z → Inv n count y → Inv n count z
Step-Inv {n} {count} {y} (step i {b} {p} lt mv) v = record {
  size = w.size;
  fits = w.fits;
  once = λ j. omega (arith, w.once j, moved (is_calling j), others_le (is_calling j));
  progress = omega (arith, w.progress, moved is_busy, others_le is_busy);
  announced = omega (arith, w.announced, moved is_last, others_le is_last);
}
  where
    others : (Pc → ℕ) → ℕ
    others f = total f n y.pc - f (y.pc i)

    others_le : (f : Pc → ℕ) → f (y.pc i) ≤ total f n y.pc
    others_le f = total-le f n y.pc i lt

    moved : (f : Pc → ℕ) → total f n (update y.pc i p) + f (y.pc i) ≡ total f n y.pc + f p
    moved f = total-update f n y.pc i p lt

    seen :
        Local count y.batch (y.pc i) (others is_busy) (others is_last) (λ j. others (is_calling j))
    seen = record {
      size = v.size;
      fits = v.fits;
      once = λ j. omega (arith, v.once j, others_le (is_calling j));
      progress = omega (arith, v.progress, others_le is_busy);
      announced = omega (arith, v.announced, others_le is_last);
    }

    w : Local count b p (others is_busy) (others is_last) (λ j. others (is_calling j))
    w = Move-Local mv seen

Reach-Inv : {n count : ℕ} {y : System} → Reach n count y → Inv n count y
Reach-Inv {n} {count} start = record {
  size = refl;
  fits = omega arith;
  once = λ i. ground (arith, none_yet (is_calling i) refl);
  progress = omega (arith, none_yet is_busy refl);
  announced = ground (arith, none_yet is_last refl);
}
  where
    none_yet : (f : Pc → ℕ) → f out ≡ 0 → total f n (λ _. out) ≡ 0
    none_yet f z = total-eq-zero f n (λ _. out) (λ _. z)
Reach-Inv (later r st) = Step-Inv st (Reach-Inv r)

is_calling-le : (i : ℕ) (p : Pc) → is_calling i p ≤ is_busy p
is_calling-le i out = omega arith
is_calling-le i p = ground arith

-- `fn` is never called twice with one index, nor with an index that is not below `count`.
pub called-once :
    {n count : ℕ} {y : System} (i : ℕ)
    → Reach n count y
    → times i y.batch.called ≤ one_if (ltb i count)
called-once i r = ground (arith, (Reach-Inv r).once i)

-- When `onAllCompleted` is called, or has been, every call of `fn` has returned, there has been one
-- for each index below `count`, and `onAllCompleted` is called this once only.
pub announced-last :
    {n count : ℕ} {y : System} (i : ℕ)
    → Reach n count y
    → 0 < y.batch.all_completed_calls + total is_last n y.pc
    → (y.batch.all_completed_calls + total is_last n y.pc ≡ 1)
      × (total is_busy n y.pc ≡ 0)
      × (times i y.batch.called ≡ one_if (ltb i count))
announced-last {n} {y = y} i r h = ground (
  arith,
  (Reach-Inv r).once i,
  (Reach-Inv r).progress,
  (Reach-Inv r).announced,
  total_mono (is_calling i) is_busy (is_calling-le i) n y.pc,
)

-- When some thread has found the indices used up and no thread is left in `drainIndices`, `fn` has
-- been called once for each index below `count`, and `onAllCompleted` once.
pub drained :
    {n count : ℕ} {y : System} (i : ℕ)
    → Reach n count y
    → 0 < count
    → count ≤ y.batch.next_index
    → ((j : ℕ) → y.pc j ≡ out)
    → (times i y.batch.called ≡ one_if (ltb i count)) × (y.batch.all_completed_calls ≡ 1)
drained {n} {count} {y} i r pos_count up all_out = ground (
  arith,
  v.once i,
  v.progress,
  v.announced,
  idle (is_calling i) refl,
  idle is_busy refl,
  idle is_last refl,
)
  where
    v : Inv n count y
    v = Reach-Inv r

    idle : (f : Pc → ℕ) → f out ≡ 0 → total f n y.pc ≡ 0
    idle f z = total-eq-zero f n y.pc (λ j. ap f (all_out j) ∙ z)
