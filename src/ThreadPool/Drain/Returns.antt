-- ===== src/ThreadPool/Drain/Returns.antt =====
-- The drain of `finishAllThreads` comes to its end and leaves nothing queued.
use cpputils.Base.{
  ℕ, zero, suc, ◌+◌, ◌-◌, ◌*◌, ◌≤◌, ◌<◌, ◌≡◌, refl, List, [], ◌∷◌, some, Bool, true, false,
  if◌then◌else◌, ltb, get_elem?, length, arith, u64_mod, ℕ_discrete, inl, inr, Option-cases,
  Bool-cases, get_elem?-some, get_elem?-lt,
}
use native.Mathlib.Nat.{suc-mul, mul-le-mul_right}
use cpputils.BlockingQueue.{Queue}
use cpputils.ThreadPool.State.{TaggedTask, State}
use cpputils.ThreadPool.Stealing.{pop_lane, IsMod, pop_lane-empty}
use cpputils.ThreadPool.Lanes.{on_lanes}
use cpputils.ThreadPool.Invariant.{one}
use cpputils.ThreadPool.Drain.{drain, complete_pending_tasks}
use cpputils.ThreadPool.Drain.Keeps.{IsWeight, IsDrainable, load, execute_lem}
use cpputils.ThreadPool.Drain.Pops.{pop_lane_lem}

fewer_rounds : (w v c : ℕ) → w < v → w * c + c ≤ v * c
fewer_rounds w v c h = omega (arith, suc-mul w c, mul-le-mul_right c h)

module _ {T : Type 0} (lane_mod : ℕ → ℕ) (spawns : T → List (T × ℕ)) (weight : T → ℕ)
    (is_weight : IsWeight weight spawns) (lanes capacity : ℕ) (md : IsMod lane_mod lanes)
    (some_lane : 1 ≤ lanes) (fits : capacity < u64_mod) where
  nothing_counted :
      (ls : List (Queue (TaggedTask T)))
      → ((j : ℕ) (q : Queue (TaggedTask T)) → get_elem? ls j ≡ some q → q.items ≡ [])
      → on_lanes one ls ≡ 0
  nothing_counted [] h = refl
  nothing_counted (q ∷ qs) h =
      rw (h 0 q refl) (omega (arith, nothing_counted qs (λ j r e. h (suc j) r e)))

  -- How many rounds are left at most: a task that is run costs two passes over the lanes.
  abbrev rounds_left : ℕ → ℕ → Bool → ℕ
  rounds_left w lane drained_any =
      w * (2 * lanes + 4) + (if drained_any then lanes + 2 else 0) + (lanes + 1 - lane)

  abbrev Swept : ℕ → State T → Type 0
  Swept lane s =
      (j : ℕ) (q : Queue (TaggedTask T)) → j < lane → get_elem? s.lanes j ≡ some q → q.items ≡ []

  drain_lem :
      (fuel lane : ℕ) (drained_any : Bool) (s : State T)
      → IsDrainable lanes capacity s
      → load weight s ≤ capacity
      → lane ≤ lanes
      → (drained_any ≡ false → Swept lane s)
      → rounds_left (load weight s) lane drained_any < fuel
      → (s' : State T) × (drain lane_mod spawns fuel lane drained_any s ≡ some s')
        × (on_lanes one s'.lanes ≡ 0)
        × (s'.queued_count ≡ 0)
  unfolding drain
  drain_lem zero lane drained_any s d room in_range swept enough = absurd (omega arith)
  drain_lem (suc fuel) lane drained_any s d room in_range swept enough =
      elim (Bool-cases (ltb lane (length s.lanes))) [
        | inl inside ↦
            let (q, at_lane) = get_elem?-some s.lanes lane (ground arith) in
            elim (Option-cases (pop_lane lane s)) [
              | inl empty ↦
                  let (s', e, r, r') =
                    drain_lem fuel (lane + 1) drained_any s d room (ground (arith, d.lane_count))
                      (λ clean j q' lt at_j. elim (ℕ_discrete j lane) [
                        | yes here ↦ pop_lane-empty lane_mod j s q' (rw here empty) at_j
                        | no other ↦ swept clean j q' (omega arith) at_j
                      ])
                      (ground (arith, d.lane_count)) in
                  (s', ground arith, r, r')
              | inr ((item, s₁), popped) ↦
                  let (d₁, w₁) =
                    pop_lane_lem spawns weight is_weight lanes capacity fits lane s s₁ item d room
                      popped in
                  let (s₂, ran, d₂, w₂) =
                    execute_lem lane_mod spawns weight is_weight lanes capacity md some_lane fits
                      item s₁ d₁ (omega (arith, w₁)) in
                  let less =
                    fewer_rounds (load weight s₂) (load weight s) (2 * lanes + 4)
                      (omega (arith, w₁, w₂)) in
                  let (s', e, r, r') =
                    drain_lem fuel lane true s₂ d₂ (omega (arith, w₁, w₂)) in_range
                      (λ no_way. absurd (ground arith)) (ground (arith, less)) in
                  (s', ground arith, r, r')
            ]
        | inr past ↦ elim (Bool-cases drained_any) [
          | inl again ↦
              let (s', e, r, r') =
                drain_lem fuel 0 false s d room (omega arith) (λ _ j q lt. absurd (omega arith))
                  (ground (arith, d.lane_count)) in
              (s', ground arith, r, r')
          | inr over ↦
              let nothing = nothing_counted s.lanes (λ j q at_j.
                swept over j q (ground (arith, d.lane_count, get_elem?-lt s.lanes j q at_j))
                  at_j) in
              (s, ground arith, nothing, omega (arith, nothing, d.is_exact))
        ]
      ]

  -- Where nobody else is at work, each task leads to finitely many, `weight` at most with itself, and
  -- each lane has room for all that is queued and will be (fewer than 2^64): in two passes over the
  -- lanes for each task and one more, the drain of `finishAllThreads` returns with every lane empty
  -- and `queuedCount` 0.
  pub complete_pending_tasks-drains :
      (fuel : ℕ) (s : State T)
      → IsDrainable lanes capacity s
      → load weight s ≤ capacity
      → load weight s * (2 * lanes + 4) + lanes + 2 ≤ fuel
      → (s' : State T) × (complete_pending_tasks lane_mod spawns fuel s ≡ some s')
        × (on_lanes one s'.lanes ≡ 0)
        × (s'.queued_count ≡ 0)
  unfolding complete_pending_tasks
  complete_pending_tasks-drains fuel s d room enough =
      drain_lem fuel 0 false s d room (omega arith) (λ _ j q lt. absurd (omega arith)) (omega arith)
