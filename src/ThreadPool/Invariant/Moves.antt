-- ===== src/ThreadPool/Invariant/Moves.antt =====
-- Each move of a thread keeps the invariant, seen from that thread.
use cpputils.Base.{ℕ, ◌≡◌, refl, List, [], ◌∷◌, ◌==◌, if◌then◌else◌, arith, sum_of, keep_if}
use cpputils.BlockingQueue.Laws.{remove_if_count}
use cpputils.ThreadPool.Tags.{count_down, set_retired}
use cpputils.ThreadPool.State.{TaggedTask, State, select_lane, points_to}
use cpputils.ThreadPool.Steps.{
  Frame, Move, pick, registers, refuses, counts, pushes, pops, completes, abandons, retires, sweeps,
  uncounts, waits, ends,
}
use cpputils.ThreadPool.Accounting.{
  counts_for, IsFresh-modify, written-count_down, written-set_retired, erase_own_lem, live_of_flag,
  register_lem, register_refused, complete_tagged_task_lem,
}
use cpputils.ThreadPool.Lanes.{on_lanes-push, on_lanes-pop, on_lanes-remove}
use cpputils.ThreadPool.Invariant.Defs.{one, Local}

module _ {T : Type 0} where
  one-matching :
      (p : ℕ) (xs : List (TaggedTask T))
      → sum_of one (keep_if (points_to p) xs) ≡ sum_of (counts_for p) xs
  one-matching p [] = refl
  one-matching p (x ∷ xs) = ground (arith, one-matching p xs)

  -- The tasks that a sweep takes out count for the element that is retired, and for no other.
  counts_for-matching :
      (p q : ℕ) (xs : List (TaggedTask T))
      → sum_of (counts_for q) (keep_if (points_to p) xs)
        ≡ (if p == q then sum_of (counts_for p) xs else 0)
  counts_for-matching p q [] = ground arith
  counts_for-matching p q (x ∷ xs) = ground (arith, counts_for-matching p q xs)

module _ {T : Type 0} (lane_mod : ℕ → ℕ) {fl : ℕ} {hd rt : ℕ → ℕ} where
  pub Move-Local :
      {s s' : State T} {fs fs' : List (Frame T)}
      → Move lane_mod s fs s' fs'
      → Local s fs fl hd rt
      → Local s' fs' fl hd rt
  unfolding select_lane
  Move-Local (pick task tag) v = record {
    queue = ground arith;
    queue_fits = ground arith;
    counts = λ p. ground (arith, v.counts p);
    counts_fit = v.counts_fit;
    fresh = v.fresh;
    retirers = λ p. ground (arith, v.retirers p);
  }
  Move-Local {s} (registers {tag} {task} {item} e fits) v =
      let (w, up) = register_lem task tag s v.fresh fits e in
      record {
        queue = ground (arith, w.lanes, w.queued_count);
        queue_fits = ground (arith, w.queued_count);
        counts = λ p. ground (arith, w.lanes, up p, v.counts p);
        counts_fit = λ p. ground (arith, up p, fits p);
        fresh = w.fresh v.fresh;
        retirers = λ p. ground (arith, w.flags p, v.retirers p);
      }
  Move-Local {s} (refuses {tag} {task} e) v =
      let (w, up) = register_refused task tag s v.fresh e in
      record {
        queue = ground (arith, w.lanes, w.queued_count);
        queue_fits = ground (arith, w.queued_count);
        counts = λ p. ground (arith, w.lanes, up p, v.counts p);
        counts_fit = λ p. ground (arith, up p, v.counts_fit p);
        fresh = w.fresh v.fresh;
        retirers = λ p. ground (arith, w.flags p, v.retirers p);
      }
  Move-Local (counts fits) v = record {
    queue = ground arith;
    queue_fits = ground arith;
    counts = λ p. ground (arith, v.counts p);
    counts_fit = v.counts_fit;
    fresh = v.fresh;
    retirers = λ p. ground (arith, v.retirers p);
  }
  Move-Local {s} (pushes {lane} {n} {item} {q} {q'} at_lane e) v = record {
    queue = ground (arith, on_lanes-push one s.lanes lane q q' at_lane item n e);
    queue_fits = v.queue_fits;
    counts = λ p.
        ground (arith, v.counts p, on_lanes-push (counts_for p) s.lanes lane q q' at_lane item n e);
    counts_fit = v.counts_fit;
    fresh = v.fresh;
    retirers = λ p. ground (arith, v.retirers p);
  }
  Move-Local {s} (pops lane {item} {q} {q'} at_lane e) v = record {
    queue = ground (arith, on_lanes-pop one s.lanes lane q q' at_lane item e);
    queue_fits = v.queue_fits;
    counts = λ p.
        ground (arith, v.counts p, on_lanes-pop (counts_for p) s.lanes lane q q' at_lane item e);
    counts_fit = v.counts_fit;
    fresh = v.fresh;
    retirers = λ p. ground (arith, v.retirers p);
  }
  Move-Local {s} (abandons lane {item} {q} {q'} at_lane e) v = record {
    queue = ground (arith, on_lanes-pop one s.lanes lane q q' at_lane item e);
    queue_fits = v.queue_fits;
    counts = λ p.
        ground (arith, v.counts p, on_lanes-pop (counts_for p) s.lanes lane q q' at_lane item e);
    counts_fit = v.counts_fit;
    fresh = v.fresh;
    retirers = λ p. ground (arith, v.retirers p);
  }
  Move-Local {s} (completes {item}) v =
      let (w, down) =
        complete_tagged_task_lem item.tag_state item.task s (λ p. ground (arith, v.counts p))
          v.counts_fit in
      record {
        queue = ground (arith, w.lanes, w.queued_count);
        queue_fits = ground (arith, w.queued_count);
        counts = λ p. ground (arith, w.lanes, down p, v.counts p);
        counts_fit = λ p. ground (arith, down p, v.counts_fit p);
        fresh = w.fresh v.fresh;
        retirers = λ p. ground (arith, w.flags p, v.retirers p);
      }
  Move-Local {s} (retires tag p at_tag live no_flag) v =
      let mark = written-set_retired p s.tags live no_flag in
      record {
        queue = ground arith;
        queue_fits = v.queue_fits;
        counts = λ q. ground (arith, mark q, v.counts q);
        counts_fit = λ q. ground (arith, mark q, v.counts_fit q);
        fresh = IsFresh-modify p set_retired s.tags v.fresh;
        retirers = λ q. ground (arith, mark q, v.retirers q);
      }
  Move-Local {s} (sweeps {p} {lane} {n} {q} {q'} at_lane e) v = record {
    queue = ground (
      arith,
      on_lanes-remove one s.lanes lane q q' at_lane (points_to p) n e,
      remove_if_count (points_to p) q q' n e,
      one-matching p q.items,
    );
    queue_fits = v.queue_fits;
    counts = λ r. ground (
      arith,
      v.counts r,
      on_lanes-remove (counts_for r) s.lanes lane q q' at_lane (points_to p) n e,
      remove_if_count (points_to p) q q' n e,
      counts_for-matching p r q.items,
    );
    counts_fit = v.counts_fit;
    fresh = v.fresh;
    retirers = λ r. ground (arith, v.retirers r);
  }
  Move-Local {s} (uncounts {removed} last) v = record {
    queue = ground arith;
    queue_fits = ground arith;
    counts = λ p. ground (arith, v.counts p);
    counts_fit = v.counts_fit;
    fresh = v.fresh;
    retirers = λ p. ground (arith, v.retirers p);
  }
  Move-Local {s} (waits {p} {removed}) v =
      let (st, live) = live_of_flag p s.tags (ground (arith, v.retirers p)) in
      let down =
        written-count_down p s.tags live removed (ground (arith, v.counts p))
          (ground (arith, v.counts_fit p)) in
      record {
        queue = ground arith;
        queue_fits = v.queue_fits;
        counts = λ q. ground (arith, down q, v.counts q);
        counts_fit = λ q. ground (arith, down q, v.counts_fit q);
        fresh = IsFresh-modify p (count_down removed) s.tags v.fresh;
        retirers = λ q. ground (arith, down q, v.retirers q);
      }
  Move-Local {s} (ends {tag} {p} live zero_left) v =
      let (gone, fresh) = erase_own_lem tag p s.tags live zero_left in
      record {
        queue = ground arith;
        queue_fits = v.queue_fits;
        counts = λ q. ground (arith, gone q, v.counts q);
        counts_fit = λ q. ground (arith, gone q, v.counts_fit q);
        fresh = fresh v.fresh;
        retirers = λ q. ground (arith, gone q, v.retirers q);
      }
  Move-Local _ v = record {
    queue = ground arith;
    queue_fits = ground arith;
    counts = λ p. ground (arith, v.counts p);
    counts_fit = v.counts_fit;
    fresh = v.fresh;
    retirers = λ p. ground (arith, v.retirers p);
  }
