-- ===== src/ThreadPool/Invariant.antt =====
-- The accounting of `queuedCount`, `outstandingTaskCount` and `retired`: true at the start, and kept
-- by every step of every thread.
mod Defs
mod Moves
pub use Defs.*
use Moves.{Move-Local}
use cpputils.Base.{
  ℕ, ◌+◌, ◌-◌, List, [], ◌≤◌, ◌≡◌, refl, arith, update, total, total-update, total-le,
  total-eq-zero, sum_of,
}
use cpputils.ThreadPool.Tags.{outstanding_at, retired_at, deref}
use cpputils.ThreadPool.State.{TaggedTask, State, create_state, lane_capacity}
use cpputils.ThreadPool.Steps.{Frame, Move, System, Step, step, Run, Reach, here, later, init}
use cpputils.ThreadPool.Accounting.{counts_for}
use cpputils.ThreadPool.Lanes.{on_lanes-create}

module _ {T : Type 0} (lane_mod : ℕ → ℕ) where
  -- Every step of every thread keeps the accounting.
  pub Step-Inv : {n : ℕ} {y z : System T} → Step lane_mod n y z → Inv n y → Inv n z
  Step-Inv {n} {y} (step i {s} {fs} lt mv) v = record {
    queue = omega (arith, w.queue, moved in_flight, others_le in_flight);
    queue_fits = w.queue_fits;
    counts = λ p. omega (arith, w.counts p, moved (held p), others_le (held p));
    counts_fit = w.counts_fit;
    fresh = w.fresh;
    retirers = λ p. omega (arith, w.retirers p, moved (retires_at p), others_le (retires_at p));
  }
    where
      -- What the other threads contribute.
      others : (Frame T → ℕ) → ℕ
      others f = total (sum_of f) n y.calls - sum_of f (y.calls i)

      others_le : (f : Frame T → ℕ) → sum_of f (y.calls i) ≤ total (sum_of f) n y.calls
      others_le f = total-le (sum_of f) n y.calls i lt

      moved :
          (f : Frame T → ℕ)
          → total (sum_of f) n (update y.calls i fs) + sum_of f (y.calls i)
            ≡ total (sum_of f) n y.calls + sum_of f fs
      moved f = total-update (sum_of f) n y.calls i fs lt

      seen :
          Local y.state
            (y.calls i)
            (others in_flight)
            (λ p. others (held p))
            (λ p. others (retires_at p))
      seen = record {
        queue = omega (arith, v.queue, others_le in_flight);
        queue_fits = v.queue_fits;
        counts = λ p. omega (arith, v.counts p, others_le (held p));
        counts_fit = v.counts_fit;
        fresh = v.fresh;
        retirers = λ p. omega (arith, v.retirers p, others_le (retires_at p));
      }

      w : Local s fs (others in_flight) (λ p. others (held p)) (λ p. others (retires_at p))
      w = Move-Local lane_mod mv seen

  init-Inv : (n k : ℕ) → Inv {T = T} n (init k)
  unfolding create_state deref
  init-Inv n k = record {
    queue =
        omega (arith, on_lanes-create {A = TaggedTask T} one k lane_capacity, none_yet in_flight);
    queue_fits = omega arith;
    counts = λ p. omega (
      arith,
      on_lanes-create {A = TaggedTask T} (counts_for p) k lane_capacity,
      none_yet (held p),
    );
    counts_fit = λ p. omega arith;
    fresh = λ p le. refl;
    retirers = λ p. omega (arith, none_yet (retires_at p));
  }
    where
      none_yet : (f : Frame T → ℕ) → total (sum_of f) n (λ _. []) ≡ 0
      none_yet f = total-eq-zero (sum_of f) n (λ _. []) (λ i. refl)

  pub Run-Inv : {n : ℕ} {y z : System T} → Run lane_mod n y z → Inv n y → Inv n z
  Run-Inv here v = v
  Run-Inv (later r st) v = Step-Inv st (Run-Inv r v)

  -- From a new pool, whatever the calls and their order: `queuedCount` is how many tasks are in the
  -- lanes, about to be pushed, or popped and not yet discounted, so it never underflows; an
  -- element's `outstandingTaskCount` is how many of its tasks are in the lanes or in the hands of a
  -- thread; and at most one `retire` is at work on an element, and only on a retired one.
  pub Reach-Inv : {n : ℕ} (k : ℕ) {y : System T} → Reach lane_mod n k y → Inv n y
  Reach-Inv {n} k r = Run-Inv r (init-Inv n k)
