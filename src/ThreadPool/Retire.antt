-- ===== src/ThreadPool/Retire.antt =====
-- What `retire` promises to the owner of a tag.
use cpputils.Base.{
  ℕ, ◌<◌, ◌≡◌, List, ◌∷◌, Option, none, some, false, arith, dec_lt, get_elem?, update, total-le,
  sum_of, sum_of-zero, le-sum_of,
}
use cpputils.BlockingQueue.{Queue}
use cpputils.ThreadPool.Tags.{
  Tags, TagState, find, deref, try_emplace, erase_own, count_up, count_down, set_retired,
  outstanding_at, deref-modify, deref-remove,
}
use cpputils.ThreadPool.State.{
  TaggedTask, State, points_to, select_lane, register, complete_tagged_task, tagged_task_can_run,
}
use cpputils.ThreadPool.Steps.{
  Frame, Move, System, step, Run, here, later, Reach, Run-trans, waiting, pick, registers, refuses,
  completes, retires, waits, ends,
}
use cpputils.ThreadPool.Accounting.{counts_for, IsFresh}
use cpputils.ThreadPool.Lanes.{queue_sum}
use cpputils.ThreadPool.Invariant.{Inv, held, retires_at, Reach-Inv}

below_next :
    (p : ℕ) (m : Tags) {st : TagState} → IsFresh m → deref p m.nodes ≡ some st → p < m.next_address
below_next p m fresh live = elim (dec_lt p m.next_address) [
  | yes lt ↦ lt
  | no ge ↦ absurd (ground (arith, fresh p (omega arith)))
]

module _ {T : Type 0} where
  -- No task of the element at `p` is in a lane or in the hands of one of `n` threads: none is
  -- queued, popped, running or about to be queued.
  pub record IsQuiet (n p : ℕ) (y : System T) : Type 0 where
    pub lanes :
        (lane k : ℕ) (q : Queue (TaggedTask T)) (item : TaggedTask T)
        → get_elem? y.state.lanes lane ≡ some q
        → get_elem? q.items k ≡ some item
        → points_to p item ≡ false
    pub calls : (i k : ℕ) (f : Frame T) → i < n → get_elem? (y.calls i) k ≡ some f → held p f ≡ 0

  IsQuiet-of_count :
      {n : ℕ} {y : System T} (p : ℕ) → Inv n y → outstanding_at p y.state.tags ≡ 0 → IsQuiet n p y
  IsQuiet-of_count {n} {y} p v z = record {
    lanes = λ lane k q item at_lane at_k. ground (
      arith,
      sum_of-zero (counts_for p) q.items k item
          (sum_of-zero (queue_sum (counts_for p)) y.state.lanes lane q (omega (arith, v.counts p))
            at_lane)
          at_k,
    );
    calls = λ i k f lt at_k.
        sum_of-zero (held p) (y.calls i) k f
          (omega (arith, v.counts p, total-le (sum_of (held p)) n y.calls i lt)) at_k;
  }

  -- The element at `p` has been erased, and its address is not given out again.
  IsGone : ℕ → State T → Type 0
  IsGone p s = (deref p s.tags.nodes ≡ none) × (p < s.tags.next_address)

  IsGone-register :
      (task : T) (tag : ℕ) (s s' : State T) (item : Option (TaggedTask T)) (p : ℕ)
      → register task tag s ≡ (item, s')
      → IsGone p s
      → IsGone p s'
  unfolding IsGone register try_emplace deref
  IsGone-register task tag s s' item p e g =
      let (q, m) = try_emplace tag s.tags in
      (ground (arith, deref-modify p q count_up m.nodes), ground arith)

  IsGone-complete_tagged_task :
      (to : Option ℕ) (s : State T) (p : ℕ) → IsGone p s → IsGone p (complete_tagged_task to s)
  unfolding IsGone complete_tagged_task
  IsGone-complete_tagged_task none s p g = g
  IsGone-complete_tagged_task (some q) s p g =
      ground (arith, deref-modify p q (count_down 1) s.tags.nodes)

  IsGone-erase_own :
      (tag q : ℕ) (s : State T) (p : ℕ)
      → IsGone p s
      → IsGone p (record s { tags = erase_own tag q s.tags })
  unfolding IsGone erase_own
  IsGone-erase_own tag q s p g = ground (arith, deref-remove p q s.tags.nodes)

  gone_count : (p : ℕ) (s : State T) → IsGone p s → outstanding_at p s.tags ≡ 0
  unfolding IsGone
  gone_count p s g = ground arith

module _ {T : Type 0} (lane_mod : ℕ → ℕ) where
  Move-IsGone :
      {s s' : State T} {fs fs' : List (Frame T)} (p : ℕ)
      → Move lane_mod s fs s' fs'
      → IsGone p s
      → IsGone p s'
  unfolding IsGone select_lane
  Move-IsGone p (pick task tag) g = g
  Move-IsGone {s} {s'} p (registers {tag} {task} {item} e _) g =
      IsGone-register task tag s s' (some item) p e g
  Move-IsGone {s} {s'} p (refuses {tag} {task} e) g = IsGone-register task tag s s' none p e g
  Move-IsGone {s} p (completes {item}) g = IsGone-complete_tagged_task item.tag_state s p g
  Move-IsGone {s} p (retires _ q _ _ _) g =
      ground (arith, deref-modify p q set_retired s.tags.nodes)
  Move-IsGone {s} p (waits {p = q} {removed}) g =
      ground (arith, deref-modify p q (count_down removed) s.tags.nodes)
  Move-IsGone {s} p (ends {tag} {p = q} _ _) g = IsGone-erase_own tag q s p g
  Move-IsGone p _ g = g

  Run-IsGone :
      {n : ℕ} {y z : System T} (p : ℕ) → Run lane_mod n y z → IsGone p y.state → IsGone p z.state
  Run-IsGone p here g = g
  Run-IsGone p (later r (step i lt mv)) g = Move-IsGone p mv (Run-IsGone p r g)

  erase_own-IsGone :
      (tag p : ℕ) (s : State T)
      → find tag s.tags.nodes ≡ some p
      → p < s.tags.next_address
      → IsGone p (record s { tags = erase_own tag p s.tags })
  unfolding IsGone erase_own
  erase_own-IsGone tag p s e lt = ground (arith, deref-remove p p s.tags.nodes)

  -- Once `retire(tag)` has returned, no task that was submitted under the tag before is queued, held
  -- by a worker or running, and that stays so whatever is called from then on. (Thread `i` is at the
  -- wait of `retire`, for the element that the tag leads to, and the wait's condition holds.)
  pub retire_barrier :
      {n : ℕ} (k : ℕ) {y z : System T} (i tag p : ℕ) {st : TagState} {fs : List (Frame T)}
      → Reach lane_mod n k y
      → i < n
      → y.calls i ≡ waiting tag p ∷ fs
      → find tag y.state.tags.nodes ≡ some p
      → deref p y.state.tags.nodes ≡ some st
      → st.outstanding ≡ 0
      → Run lane_mod n
          (record {
            state = record y.state { tags = erase_own tag p y.state.tags };
            calls = update y.calls i fs;
          })
          z
      → IsQuiet n p z
  retire_barrier {n} k {y} {z} i tag p r lt at_wait at_tag live none_left more =
      IsQuiet-of_count p (Reach-Inv lane_mod k done) (gone_count p z.state gone)
    where
      done : Reach lane_mod n k z
      done = Run-trans lane_mod (later r (step i lt (rw at_wait (ends live none_left)))) more

      gone : IsGone p z.state
      gone = Run-IsGone p more (
          erase_own-IsGone tag p y.state at_tag
            (below_next p y.state.tags (Reach-Inv lane_mod k r).fresh live))

  -- While a call of `retire` is at work on an element, no task of it can start.
  pub retiring_blocks :
      {n : ℕ} (k : ℕ) {y : System T} (p i j : ℕ) (f : Frame T)
      → Reach lane_mod n k y
      → i < n
      → get_elem? (y.calls i) j ≡ some f
      → retires_at p f ≡ 1
      → tagged_task_can_run (some p) y.state ≡ false
  unfolding tagged_task_can_run
  retiring_blocks {n} k {y} p i j f r lt at_j rt = ground (
    arith,
    (Reach-Inv lane_mod k r).retirers p,
    total-le (sum_of (retires_at p)) n y.calls i lt,
    le-sum_of (retires_at p) (y.calls i) j f at_j,
  )
