-- ===== src/ThreadPool/Stealing.antt =====
-- `State::tryGetTask`: a worker looks into its own lane first, then into the others, each scan
-- starting right past its own. Here it runs with nobody acting between its attempts; each success
-- is a pair of steps of ThreadPool/Steps.
use cpputils.Base.{
  ℕ, zero, suc, ◌+◌, ◌-◌, ◌%◌, ◌≤◌, ◌<◌, ◌≡◌, refl, ◌⊎◌, inl, inr, List, [], ◌∷◌, Option, none,
  some, ◌==◌, if◌then◌else◌, arith, length, get_elem?, set, sum_of, sub64, u32_mod, Option-cases,
  Bool-cases, dec_lt, ℕ_discrete, ◌≢◌, get_elem?-lt, sum_of-zero,
}
use mathlib.Core.Path.{subst}
use native.Mathlib.Nat.{mod-eq_of_lt, add-mod_right}
use cpputils.BlockingQueue.{Queue, try_pop}
use cpputils.ThreadPool.State.{TaggedTask, State}
use cpputils.ThreadPool.Steps.{Frame, Move, popped, taken, pops, takes}
use cpputils.ThreadPool.Lanes.{on_lanes, queue_sum}
use cpputils.ThreadPool.Invariant.{one}

module _ {T : Type 0} where
  -- `queues[i].try_pop(task)` and, if it succeeds, `--queuedCount`.
  unfoldable pub pop_from :
      Option (Queue (TaggedTask T)) → ℕ → State T → Option (TaggedTask T × State T)
  pop_from none i s = none
  pop_from (some q) i s =
      let (q', popped_item) = try_pop q in
      elim popped_item [
        | none ↦ none
        | some item ↦
            some
              (item, record s { lanes = set s.lanes i q'; queued_count = sub64 s.queued_count 1 })
      ]

  unfoldable pub pop_lane : ℕ → State T → Option (TaggedTask T × State T)
  unfolding pop_from
  pop_lane i s = pop_from (get_elem? s.lanes i) i s

module _ (lane_mod : ℕ → ℕ) where
  -- The documented behaviour of `Math::FastMod32` built for `n`.
  abbrev pub IsMod : ℕ → Type 0
  IsMod n = (x : ℕ) → x < u32_mod → lane_mod x ≡ x % n

  abbrev victim : ℕ → ℕ → ℕ
  victim own offset = lane_mod ((own + offset) % u32_mod)

  victim-mod :
      (n own o j : ℕ)
      → IsMod n
      → (own + o ≡ j) ⊎ (own + o ≡ j + n)
      → own + o < u32_mod
      → j < n
      → victim own o ≡ j
  victim-mod n own o j md h fits lt =
      let fits' : (own + o) % u32_mod ≡ own + o = omega arith in
      rw fits' (ground (arith, md (own + o) fits, add-mod_right j n, mod-eq_of_lt lt))

  -- Every lane but the worker's own is the victim of one offset of the scan.
  victim_of :
      (n own j : ℕ)
      → IsMod n
      → n ≤ 0x8000_0000
      → own < n
      → j < n
      → j ≢ own
      → (o : ℕ) × (1 ≤ o) × (o < n) × (victim own o ≡ j)
  victim_of n own j md small lt_own lt_j ne = elim (dec_lt own j) [
    | yes above ↦ (
      j - own,
      omega arith,
      omega arith,
      victim-mod n own (j - own) j md (inl (omega arith)) (omega arith) lt_j,
    )
    | no below ↦ (
      j + n - own,
      omega arith,
      omega arith,
      victim-mod n own (j + n - own) j md (inr (omega arith)) (omega arith) lt_j,
    )
  ]

module _ {T : Type 0} (lane_mod : ℕ → ℕ) where
  -- The scan, with `rounds` offsets left.
  unfoldable pub steal : ℕ → ℕ → ℕ → State T → Option (TaggedTask T × State T)
  steal zero offset own s = none
  steal (suc rounds) offset own s =
      let later = steal rounds (offset + 1) own s in
      elim (pop_lane (victim lane_mod own offset) s) [ some r ↦ some r | none ↦ later ]

  unfoldable pub try_get_task : ℕ → State T → Option (TaggedTask T × State T)
  unfolding steal pop_lane
  try_get_task own s = elim (pop_lane own s) [
    | some r ↦ some r
    | none ↦ if s.queued_count == 0 then none else steal (length s.lanes - 1) 1 own s
  ]

  pub pop_lane-empty :
      (i : ℕ) (s : State T) (q : Queue (TaggedTask T))
      → pop_lane i s ≡ none
      → get_elem? s.lanes i ≡ some q
      → q.items ≡ []
  unfolding pop_lane try_pop
  pop_lane-empty i s q e at_i = ground arith

  steal-none :
      (rounds offset own : ℕ) (s : State T)
      → steal rounds offset own s ≡ none
      → (o : ℕ) → offset ≤ o
      → o < offset + rounds
      → pop_lane (victim lane_mod own o) s ≡ none
  unfolding steal
  steal-none zero offset own s e o le lt = absurd (omega arith)
  steal-none (suc rounds) offset own s e o le lt = elim (ℕ_discrete o offset) [
    | yes now ↦ rw now (ground arith)
    | no later ↦ steal-none rounds (offset + 1) own s (ground arith) o (omega arith) (omega arith)
  ]

  nil_of_sum : (xs : List (TaggedTask T)) → sum_of one xs ≡ 0 → xs ≡ []
  nil_of_sum [] z = refl
  nil_of_sum (x ∷ xs) z = absurd (omega arith)

  -- A worker that finds no task has looked into every lane and found it empty, if its own lane is one
  -- of the pool's, there are at most 2^31 of them, and `queuedCount` is no less than what is queued.
  pub try_get_task-none :
      (own : ℕ) (s : State T)
      → IsMod lane_mod (length s.lanes)
      → length s.lanes ≤ 0x8000_0000
      → own < length s.lanes
      → on_lanes one s.lanes ≤ s.queued_count
      → try_get_task own s ≡ none
      → (j : ℕ) (q : Queue (TaggedTask T)) → get_elem? s.lanes j ≡ some q
      → q.items ≡ []
  unfolding try_get_task
  try_get_task-none own s md small lt counted e j q at_j = elim (ℕ_discrete j own) [
    | yes own_lane ↦ pop_lane-empty own s q (ground arith) (rw (← own_lane) at_j)
    | no other ↦ elim (Bool-cases (s.queued_count == 0)) [
      | inl nothing ↦
          nil_of_sum q.items (sum_of-zero (queue_sum one) s.lanes j q (ground arith) at_j)
      | inr some_queued ↦
          let (o, ge, le, e') =
            victim_of lane_mod (length s.lanes) own j md small lt (get_elem?-lt s.lanes j q at_j)
              other in
          pop_lane-empty j s q
            (rw (← e') (steal-none (length s.lanes - 1) 1 own s (ground arith) o ge (omega arith)))
            at_j
    ]
  ]

  abbrev pub Taken : State T → TaggedTask T → State T → List (Frame T) → Type 0
  Taken s item s' fs =
      (between : State T) × Move lane_mod s fs between (popped item ∷ fs)
      × Move lane_mod between (popped item ∷ fs) s' (taken item ∷ fs)

  pop_lane-Taken :
      (i : ℕ) (s s' : State T) (item : TaggedTask T) (fs : List (Frame T))
      → pop_lane i s ≡ some (item, s')
      → Taken s item s' fs
  unfolding pop_lane
  pop_lane-Taken i s s' item fs e = elim (Option-cases (get_elem? s.lanes i)) [
    | inl no_lane ↦ absurd (ground arith)
    | inr (q, at_i) ↦
        let got : try_pop q ≡ ((try_pop q).0, some item) = ground arith in
        let between : State T = record s { lanes = set s.lanes i (try_pop q).0 } in
        let after : record between { queued_count = sub64 between.queued_count 1 } ≡ s' =
          ground arith in
        (
          between,
          pops i at_i got,
          subst (λ z. Move lane_mod between (popped item ∷ fs) z (taken item ∷ fs)) after takes,
        )
  ]

  steal-some :
      (rounds offset own : ℕ) (s : State T) (r : TaggedTask T × State T)
      → steal rounds offset own s ≡ some r
      → (i : ℕ) × (pop_lane i s ≡ some r)
  unfolding steal
  steal-some zero offset own s r e = ground arith
  steal-some (suc rounds) offset own s r e =
      elim (Option-cases (pop_lane (victim lane_mod own offset) s)) [
        | inl empty ↦ steal-some rounds (offset + 1) own s r (ground arith)
        | inr (r', found) ↦ (victim lane_mod own offset, ground arith)
      ]

  -- A task that a worker gets was the first in some lane, and getting it is the two steps of
  -- ThreadPool/Steps that pop a task and take it off `queuedCount`.
  pub try_get_task-some :
      (own : ℕ) (s s' : State T) (item : TaggedTask T) (fs : List (Frame T))
      → try_get_task own s ≡ some (item, s')
      → Taken s item s' fs
  unfolding try_get_task
  try_get_task-some own s s' item fs e = elim (Option-cases (pop_lane own s)) [
    | inr (r, found) ↦ pop_lane-Taken own s s' item fs (ground arith)
    | inl empty ↦
        let (i, found) = steal-some (length s.lanes - 1) 1 own s (item, s') (ground arith) in
        pop_lane-Taken i s s' item fs found
  ]
