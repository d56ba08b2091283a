-- ===== src/ThreadPool/Drain/Pops.antt =====
-- What a pop leaves of a pool that is being drained.
use cpputils.Base.{
  ℕ, ◌+◌, ◌≤◌, ◌<◌, ◌≡◌, refl, List, [], ◌∷◌, some, get_elem?, set, sub64, arith, u64_mod,
  length-set, inl, inr, Option-cases,
}
use cpputils.BlockingQueue.{Queue, try_pop}
use cpputils.ThreadPool.State.{TaggedTask, State}
use cpputils.ThreadPool.Stealing.{pop_lane}
use cpputils.ThreadPool.Lanes.{on_lanes-pop}
use cpputils.ThreadPool.Invariant.{one}
use cpputils.ThreadPool.Drain.Keeps.{
  IsDrainable, IsWeight, load, item_weight, has_room-set, one-le_load,
}

module _ {T : Type 0} where
  abbrev rest_of : List (TaggedTask T) → List (TaggedTask T)
  rest_of [] = []
  rest_of (x ∷ xs) = xs

  abbrev popped_lane : ℕ → Queue (TaggedTask T) → State T → State T
  popped_lane lane q s = record s {
    lanes = set s.lanes lane (record q { items = rest_of q.items });
    queued_count = sub64 s.queued_count 1;
  }

  pop_lane_cases :
      (lane : ℕ) (s s' : State T) (item : TaggedTask T)
      → pop_lane lane s ≡ some (item, s')
      → (q : Queue (TaggedTask T)) × (get_elem? s.lanes lane ≡ some q)
        × (try_pop q ≡ (record q { items = rest_of q.items }, some item))
        × (s' ≡ popped_lane lane q s)
  unfolding pop_lane try_pop
  pop_lane_cases lane s s' item e = elim (Option-cases (get_elem? s.lanes lane)) [
    | inl none_there ↦ absurd (ground arith)
    | inr (q, at_lane) ↦ (q, at_lane, ground arith, ground arith)
  ]

module _ {T : Type 0} (spawns : T → List (T × ℕ)) (weight : T → ℕ)
    (is_weight : IsWeight weight spawns) (lanes capacity : ℕ) (fits : capacity < u64_mod) where
  pub pop_lane_lem :
      (lane : ℕ) (s s' : State T) (item : TaggedTask T)
      → IsDrainable lanes capacity s
      → load weight s ≤ capacity
      → pop_lane lane s ≡ some (item, s')
      → IsDrainable lanes capacity s' × (load weight s' + weight item.task ≡ load weight s)
  pop_lane_lem lane s s' item d room e =
      let (q, at_lane, popped, e') = pop_lane_cases lane s s' item e in
      let q' = record q { items = rest_of q.items } in
      let w = on_lanes-pop (item_weight weight) s.lanes lane q q' at_lane item popped in
      let o = on_lanes-pop one s.lanes lane q q' at_lane item popped in
      rw e' (
        record {
          lane_count = omega (arith, d.lane_count, length-set s.lanes lane q');
          has_room = λ i r at_i. has_room-set lanes capacity lane i q q' r s refl d at_lane at_i;
          is_exact = omega (arith, d.is_exact, one-le_load weight spawns is_weight s.lanes, o);
          selector_fits = d.selector_fits;
        },
        w,
      )
