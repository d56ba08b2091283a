-- ===== src/Batch/Parallel/Invariant.antt =====
-- What holds in every call of `parallelFor`, whatever the workers do.
use mathlib.Core.Path.{subst, sym}
use cpputils.Base.{
  ap, ◌∙◌, update, ℕ, zero, suc, ◌≤◌, ◌<◌, ◌≡◌, ◌≢◌, refl, arith, Bool, true, false,
}
use cpputils.Batch.{
  Batch, System, Pc, Move, create, call, call_all_completed, next, complete, out, fetching, calling,
  in_fn, completing, last, enter, fetch, leave, calls, returns, completes, completes_last, finishes,
}
use cpputils.Batch
use cpputils.Batch.Parallel.{
  Call, CallerPc, Step, Reach, called, later, enqueues, enters, drains, leaves, announces, wakes,
  finds_unset, blocks, stirs, picks_up, helps, enqueuing, draining, waiting, checked, asleep,
  returned, holds_mutex, notified, is_done,
}

-- Counters only go up.
Move-grows :
    {b b' : Batch} {p p' : Pc}
    → Move b p b' p'
    → (b.next_index ≤ b'.next_index)
      × (b.all_completed_calls ≤ b'.all_completed_calls)
      × (b'.count ≡ b.count)
unfolding next complete
Move-grows {b} enter = ground arith
Move-grows {b} (fetch room e) = ground arith
Move-grows {b} (leave room e) = ground arith
Move-grows {b} calls = ground arith
Move-grows {b} returns = ground arith
Move-grows {b} (completes e) = ground arith
Move-grows {b} (completes_last e) = ground arith
Move-grows {b} finishes = ground arith

-- Only `onAllCompleted` sets `done`.
Move-keeps :
    {b b' : Batch} {p p' : Pc}
    → Move b p b' p'
    → p ≢ last
    → b'.all_completed_calls ≡ b.all_completed_calls
unfolding next complete
Move-keeps {b} enter ne = ground arith
Move-keeps {b} (fetch room e) ne = ground arith
Move-keeps {b} (leave room e) ne = ground arith
Move-keeps {b} calls ne = ground arith
Move-keeps {b} returns ne = ground arith
Move-keeps {b} (completes e) ne = ground arith
Move-keeps {b} (completes_last e) ne = ground arith
Move-keeps {b} finishes ne = absurd (ne refl)

-- A thread that is in `drainIndices` and leaves has found the indices used up.
Move-leaves : {b b' : Batch} {p : Pc} → Move b p b' out → p ≢ out → b.count ≤ b'.next_index
unfolding next
Move-leaves {b} (leave room e) ne = ground arith

abbrev pub has_left : CallerPc → Pc → Bool
has_left draining out = true
has_left waiting p = true
has_left checked p = true
has_left asleep p = true
has_left returned p = true
has_left c p = false

has_left-draining : (p : Pc) → has_left draining p ≡ true → p ≡ out
has_left-draining out h = refl
has_left-draining fetching h = ground arith
has_left-draining (calling i) h = ground arith
has_left-draining in_fn h = ground arith
has_left-draining completing h = ground arith
has_left-draining last h = ground arith

-- A caller that has seen `done` unset and will not look again before it is woken.
abbrev pub is_unaware : CallerPc → Bool
is_unaware checked = true
is_unaware asleep = true
is_unaware _ = false

unaware-notified : (pc : CallerPc) → holds_mutex pc ≡ false → is_unaware (notified pc) ≡ false
unaware-notified (enqueuing k) h = refl
unaware-notified draining h = refl
unaware-notified waiting h = refl
unaware-notified checked h = absurd (ground arith)
unaware-notified asleep h = refl
unaware-notified returned h = refl

left-notified : (pc : CallerPc) (p : Pc) → has_left (notified pc) p ≡ has_left pc p
left-notified (enqueuing k) p = refl
left-notified draining p = refl
left-notified waiting p = refl
left-notified checked p = refl
left-notified asleep p = refl
left-notified returned p = refl

left-announced :
    (pc : CallerPc) (i : ℕ) (f : ℕ → Pc)
    → has_left pc (update f i fetching 0) ≡ true
    → has_left pc (f 0) ≡ true
left-announced (enqueuing k) i f h = absurd (ground arith)
left-announced draining zero f h = absurd (ground arith)
left-announced draining (suc i) f h = ground arith
left-announced waiting i f h = refl
left-announced checked i f h = refl
left-announced asleep i f h = refl
left-announced returned i f h = refl

pub record Inv (n count : ℕ) (c : Call) : Type 0 where
  pub reaches : Batch.Reach n count c.threads
  pub size : c.threads.batch.count ≡ count
  pub left : has_left c.caller (c.threads.pc 0) ≡ true → count ≤ c.threads.batch.next_index
  pub announced : c.caller ≡ returned → is_done c.threads.batch ≡ true
  pub unaware : is_unaware c.caller ≡ true → is_done c.threads.batch ≡ false

Step-Inv : {n count : ℕ} {c d : Call} → 0 < n → Step n c d → Inv n count c → Inv n count d
unfolding is_done
Step-Inv {n} {count} {c} pos (enqueues e) v = record {
  reaches = v.reaches;
  size = v.size;
  left = λ h. ground arith;
  announced = λ h. ground arith;
  unaware = λ h. ground arith;
}
Step-Inv {n} {count} {c} pos (enters e at_out) v = record {
  reaches = Batch.later v.reaches (
      Batch.step 0 pos
        (subst (λ p. Move c.threads.batch p c.threads.batch fetching) (sym at_out) enter));
  size = v.size;
  left = λ h. ground arith;
  announced = λ h. ground arith;
  unaware = λ h. ground arith;
}
Step-Inv {n} {count} {c} pos (drains {b} {p} e in_it no_last mv) v = record {
  reaches = Batch.later v.reaches (Batch.step 0 pos mv);
  size = ground (arith, Move-grows mv, v.size);
  left = λ h.
      let left_now : p ≡ out = has_left-draining p (ap (λ k. has_left k p) (sym e) ∙ h) in
      let used_up =
        Move-leaves (subst (λ p. Move c.threads.batch (c.threads.pc 0) b p) left_now mv) in_it in
      ground (arith, used_up, v.size);
  announced = λ h. ground arith;
  unaware = λ h. ground arith;
}
Step-Inv {n} {count} {c} pos (leaves e at_out) v = record {
  reaches = v.reaches;
  size = v.size;
  left = λ h. v.left (ground arith);
  announced = λ h. ground arith;
  unaware = λ h. ground arith;
}
Step-Inv {n} {count} {c} pos (wakes e done) v = record {
  reaches = v.reaches;
  size = v.size;
  left = λ h. v.left (ground arith);
  announced = λ h. done;
  unaware = λ h. ground arith;
}
Step-Inv {n} {count} {c} pos (finds_unset e unset) v = record {
  reaches = v.reaches;
  size = v.size;
  left = λ h. v.left (ground arith);
  announced = λ h. ground arith;
  unaware = λ h. unset;
}
Step-Inv {n} {count} {c} pos (blocks e) v = record {
  reaches = v.reaches;
  size = v.size;
  left = λ h. v.left (ground arith);
  announced = λ h. ground arith;
  unaware = λ h. v.unaware (ground arith);
}
Step-Inv {n} {count} {c} pos (stirs e) v = record {
  reaches = v.reaches;
  size = v.size;
  left = λ h. v.left (ground arith);
  announced = λ h. ground arith;
  unaware = λ h. ground arith;
}
Step-Inv {n} {count} {c} pos (announces i in_range at_last mutex_free) v = record {
  reaches = Batch.later v.reaches (
      Batch.step i in_range (
        subst (λ p. Move c.threads.batch p (call_all_completed c.threads.batch) fetching)
          (sym at_last) finishes));
  size = v.size;
  left = λ h. v.left (left-announced c.caller i c.threads.pc (sym (left-notified c.caller _) ∙ h));
  announced = λ h. ground arith;
  unaware = λ h. ground (arith, unaware-notified c.caller mutex_free);
}
Step-Inv {n} {count} {c} pos (picks_up i some_i in_range e at_out) v = record {
  reaches = Batch.later v.reaches (
      Batch.step i in_range
        (subst (λ p. Move c.threads.batch p c.threads.batch fetching) (sym at_out) enter));
  size = v.size;
  left = λ h. v.left (ground arith);
  announced = v.announced;
  unaware = v.unaware;
}
Step-Inv {n} {count} {c} pos (helps i {b} {p} some_i in_range in_it no_last mv) v = record {
  reaches = Batch.later v.reaches (Batch.step i in_range mv);
  size = ground (arith, Move-grows mv, v.size);
  left = λ h. ground (arith, v.left (ground arith), Move-grows mv);
  announced = λ h. ground (arith, v.announced h, Move-grows mv);
  unaware = λ h. ground (arith, v.unaware h, Move-keeps mv no_last);
}

pub Reach-Inv : {n count helpers : ℕ} {c : Call} → 0 < n → Reach n count helpers c → Inv n count c
Reach-Inv pos called = record {
  reaches = Batch.start;
  size = refl;
  left = λ h. ground arith;
  announced = λ h. ground arith;
  unaware = λ h. ground arith;
}
Reach-Inv pos (later r st) = Step-Inv pos st (Reach-Inv pos r)
