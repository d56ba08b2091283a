-- ===== src/ThreadPool/Drain/Keeps.antt =====
-- What a push, `enqueue` and a task that runs leave of a pool that is being drained.
use cpputils.Base.{
  ℕ, ◌+◌, ◌≤◌, ◌<◌, ◌≡◌, refl, List, [], ◌∷◌, ◌++◌, Option, none, some, if◌then◌else◌, get_elem?,
  set, add64, length, arith, sum_of, u32_mod, u64_mod, length-set, add32, ◌∙◌, get_elem?-set, inl,
  inr, get_elem?-some, le-sum_of,
}
use native.Mathlib.Nat.{mod-lt}
use cpputils.BlockingQueue.{Queue, push}
use cpputils.ThreadPool.State.{
  TaggedTask, State, select_lane, register, tagged_task_can_run, complete_tagged_task,
}
use cpputils.ThreadPool.Stealing.{IsMod}
use cpputils.ThreadPool.Lanes.{on_lanes, queue_sum, on_lanes-push}
use cpputils.ThreadPool.Invariant.{one}
use cpputils.ThreadPool.Drain.{push_to, push_counted, enqueue, enqueue_all, execute_contained_task}

-- The pool has so many lanes, each with room for `capacity` tasks, and `queuedCount` is exact.
pub record IsDrainable {T : Type 0} (lanes capacity : ℕ) (s : State T) : Type 0 where
  pub lane_count : length s.lanes ≡ lanes
  pub has_room :
      (i : ℕ) (q : Queue (TaggedTask T)) → get_elem? s.lanes i ≡ some q → capacity ≤ q.max_size
  pub is_exact : s.queued_count ≡ on_lanes one s.lanes
  pub selector_fits : s.lane_selector < u32_mod

module _ {T : Type 0} (weight : T → ℕ) where
  abbrev pub spawned : List (T × ℕ) → ℕ
  spawned ts = sum_of (λ (t : T × ℕ). weight t.0) ts

  -- `weight` bounds how many tasks a task is, with all that it leads to.
  abbrev pub IsWeight : (T → List (T × ℕ)) → Type 0
  IsWeight spawns = (t : T) → spawned (spawns t) < weight t

  abbrev pub item_weight : TaggedTask T → ℕ
  item_weight item = weight item.task

  -- What is queued counts at most this much.
  abbrev pub load : State T → ℕ
  load s = on_lanes item_weight s.lanes

module _ {T : Type 0} (weight : T → ℕ) (spawns : T → List (T × ℕ))
    (is_weight : IsWeight weight spawns) where
  one-le_weight :
      (items : List (TaggedTask T)) → sum_of one items ≤ sum_of (item_weight weight) items
  one-le_weight [] = omega arith
  one-le_weight (x ∷ xs) = omega (arith, one-le_weight xs, is_weight x.task)

  pub one-le_load :
      (ls : List (Queue (TaggedTask T))) → on_lanes one ls ≤ on_lanes (item_weight weight) ls
  one-le_load [] = omega arith
  one-le_load (q ∷ qs) = omega (arith, one-le_weight q.items, one-le_load qs)

module _ {T : Type 0} (lanes capacity : ℕ) where
  pub has_room-set :
      (lane i : ℕ) (q q' r : Queue (TaggedTask T)) (s : State T)
      → q'.max_size ≡ q.max_size
      → IsDrainable lanes capacity s
      → get_elem? s.lanes lane ≡ some q
      → get_elem? (set s.lanes lane q') i ≡ some r
      → capacity ≤ r.max_size
  has_room-set lane i q q' r s same d at_lane at_i = elim (get_elem?-set s.lanes lane q' i) [
    | inl old ↦ d.has_room i r (ground arith)
    | inr (new, e) ↦ ground (arith, d.has_room lane q at_lane)
  ]

module _ {T : Type 0} (lane_mod : ℕ → ℕ) (spawns : T → List (T × ℕ)) (weight : T → ℕ)
    (is_weight : IsWeight weight spawns) (lanes capacity : ℕ) (md : IsMod lane_mod lanes)
    (some_lane : 1 ≤ lanes) (fits : capacity < u64_mod) where
  length-one : (items : List (TaggedTask T)) → length items ≡ sum_of one items
  length-one [] = refl
  length-one (x ∷ xs) = omega (arith, length-one xs)

  -- A push to a lane, past `++queuedCount`.
  push_to_lem :
      (lane : ℕ) (q : Queue (TaggedTask T)) (item : TaggedTask T) (s : State T)
      → get_elem? s.lanes lane ≡ some q
      → IsDrainable lanes capacity s
      → load weight s + weight item.task ≤ capacity
      → (s' : State T) × (push_to
            (some q)
            lane
            item
            (record s { queued_count = add64 s.queued_count 1 })
          ≡ some s')
        × IsDrainable lanes capacity s'
        × (load weight s' ≡ load weight s + weight item.task)
  unfolding push_to push
  push_to_lem lane q item s at_lane d room =
      let added = record q { items = q.items ++ (item ∷ []) } in
      let held = le-sum_of (queue_sum one) s.lanes lane q at_lane in
      let short : length q.items < q.max_size = omega (
        arith,
        held,
        length-one q.items,
        one-le_load weight spawns is_weight s.lanes,
        d.has_room lane q at_lane,
        is_weight item.task,
      ) in
      let pushed : push [] q item ≡ some (added, length q.items + 1) = ground arith in
      (
        record s { queued_count = add64 s.queued_count 1; lanes = set s.lanes lane added },
        ground arith,
        record {
          lane_count = omega (arith, d.lane_count, length-set s.lanes lane added);
          has_room = λ i r at_i. has_room-set lanes capacity lane i q added r s refl d at_lane at_i;
          is_exact = omega (
            arith,
            d.is_exact,
            one-le_load weight spawns is_weight s.lanes,
            is_weight item.task,
            on_lanes-push one s.lanes lane q added at_lane item (length q.items + 1) pushed,
          );
          selector_fits = d.selector_fits;
        },
        on_lanes-push (item_weight weight) s.lanes lane q added at_lane item (length q.items + 1)
            pushed,
      )

  -- Only the lanes, the count and the selector matter.
  same-IsDrainable :
      (s s' : State T)
      → s'.lanes ≡ s.lanes
      → s'.queued_count ≡ s.queued_count
      → s'.lane_selector < u32_mod
      → IsDrainable lanes capacity s
      → IsDrainable lanes capacity s' × (load weight s' ≡ load weight s)
  same-IsDrainable s s' l c sel d = (
    record {
      lane_count = rw l d.lane_count;
      has_room = λ i q e. d.has_room i q (ground arith);
      is_exact = rw l (c ∙ d.is_exact);
      selector_fits = sel;
    },
    rw l refl,
  )

  register_lem :
      (task : T) (tag : ℕ) (s : State T)
      → let r = register task tag s in
        (r.1.lanes ≡ s.lanes)
        × (r.1.queued_count ≡ s.queued_count)
        × (r.1.lane_selector ≡ s.lane_selector)
        × ((item : TaggedTask T) → r.0 ≡ some item → item.task ≡ task)
  unfolding register
  register_lem task tag s = (ground arith, ground arith, ground arith, λ item e. ground arith)

  push_counted_lem :
      (lane : ℕ) (t : T) (r : Option (TaggedTask T) × State T)
      → lane < lanes
      → ((item : TaggedTask T) → r.0 ≡ some item → item.task ≡ t)
      → IsDrainable lanes capacity r.1
      → load weight r.1 + weight t ≤ capacity
      → (s' : State T) × (push_counted lane r ≡ some s')
        × IsDrainable lanes capacity s'
        × (load weight s' ≤ load weight r.1 + weight t)
  unfolding push_counted
  push_counted_lem lane t (none, s) in_range is_t d room = (s, refl, d, omega arith)
  push_counted_lem lane t (some item, s) in_range is_t d room =
      let (q, at_lane) = get_elem?-some s.lanes lane (omega (arith, d.lane_count)) in
      let same = is_t item refl in
      let (s', e, d', l) = push_to_lem lane q item s at_lane d (rw same room) in
      (s', rw at_lane e, d', ground arith)

  enqueue_lem :
      (t : T) (tag : ℕ) (s : State T)
      → IsDrainable lanes capacity s
      → load weight s + weight t ≤ capacity
      → (s' : State T) × (enqueue lane_mod t tag s ≡ some s')
        × IsDrainable lanes capacity s'
        × (load weight s' ≤ load weight s + weight t)
  unfolding enqueue select_lane
  enqueue_lem t tag s d room =
      let s₁ = record s { lane_selector = add32 s.lane_selector 1 } in
      let (l, c, sel, is_t) = register_lem t tag s₁ in
      let (d', w) = same-IsDrainable s (register t tag s₁).1 l c (ground arith) d in
      let in_range : lane_mod s.lane_selector < lanes =
        omega (arith, md s.lane_selector d.selector_fits, mod-lt s.lane_selector some_lane) in
      let (s', e, d'', w') =
        push_counted_lem (lane_mod s.lane_selector) t (register t tag s₁) in_range is_t d'
          (omega (arith, w)) in
      (s', e, d'', omega (arith, w, w'))

  enqueue_all_lem :
      (ts : List (T × ℕ)) (s : State T)
      → IsDrainable lanes capacity s
      → load weight s + spawned weight ts ≤ capacity
      → (s' : State T) × (enqueue_all lane_mod ts s ≡ some s')
        × IsDrainable lanes capacity s'
        × (load weight s' ≤ load weight s + spawned weight ts)
  unfolding enqueue_all
  enqueue_all_lem [] s d room = (s, refl, d, omega arith)
  enqueue_all_lem ((t, tag) ∷ ts) s d room =
      let (s₁, e, d₁, w) = enqueue_lem t tag s d (omega arith) in
      let (s', e', d', w') = enqueue_all_lem ts s₁ d₁ (omega (arith, w)) in
      (s', ground arith, d', omega (arith, w, w'))

  complete_lem :
      (p : Option ℕ) (s : State T)
      → let s' = complete_tagged_task p s in
        (s'.lanes ≡ s.lanes)
        × (s'.queued_count ≡ s.queued_count)
        × (s'.lane_selector ≡ s.lane_selector)
  unfolding complete_tagged_task
  complete_lem none s = (refl, refl, refl)
  complete_lem (some p) s = (refl, refl, refl)

  pub execute_lem :
      (item : TaggedTask T) (s : State T)
      → IsDrainable lanes capacity s
      → load weight s + weight item.task ≤ capacity
      → (s' : State T) × (execute_contained_task lane_mod spawns item s ≡ some s')
        × IsDrainable lanes capacity s'
        × (load weight s' < load weight s + weight item.task)
  unfolding execute_contained_task
  execute_lem item s d room =
      let ts = if tagged_task_can_run item.tag_state s then spawns item.task else [] in
      let few : spawned weight ts < weight item.task = ground (arith, is_weight item.task) in
      let (s₁, e, d₁, w) = enqueue_all_lem ts s d (omega (arith, few)) in
      let s' = complete_tagged_task item.tag_state s₁ in
      let (l, c, sel) = complete_lem item.tag_state s₁ in
      let (d', w') = same-IsDrainable s₁ s' l c (omega (arith, sel, d₁.selector_fits)) d₁ in
      (s', ground arith, d', omega (arith, w, w', few))
