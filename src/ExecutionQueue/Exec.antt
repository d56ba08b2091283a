-- ===== src/ExecutionQueue/Exec.antt =====
-- What one call of `exec` runs.
use mathlib.Core.List.{append-nil, append_assoc}
use mathlib.Core.Path.{subst}
use cpputils.Base.{
  ℕ, zero, suc, ◌≤◌, ◌≡◌, refl, List, [], ◌∷◌, ◌++◌, Option, none, some, inl, inr, arith, length,
  Option-cases, ap, ◌∙◌,
}
use cpputils.ExecutionQueue.{
  QueuedTask, untagged, Call, enqueues, Effect, Outcome, apply_all, try_pop, exec_loop, exec,
  log_of, ExecutionMode, exec_first, exec_all,
}

module _ {C : Type 0} (effect : C → Effect C) (others : ℕ → List (Call C)) where
  loop-ran-le : (k : ℕ) (q : List (QueuedTask C)) → length (exec_loop effect others k q).ran ≤ k
  unfolding exec_loop
  loop-ran-le zero q = omega arith
  loop-ran-le (suc k) q = elim (Option-cases (try_pop (apply_all (others (suc k)) q))) [
    | inl empty ↦ rw (empty, exec_loop) (omega arith)
    | inr ((x, rest), found) ↦ elim (Option-cases x.code) [
      | inl no_code ↦ rw (found, exec_loop, no_code) (omega (arith, loop-ran-le k rest))
      | inr (c, code) ↦
          rw (found, exec_loop, code)
            (omega (arith, loop-ran-le k (apply_all (effect c).calls rest)))
    ]
  ]

  -- The handlers' log entries for a row of tasks.
  abbrev pub logs : List C → List Outcome
  logs [] = []
  logs (c ∷ cs) = log_of (effect c).outcome ++ logs cs

  loop-logged :
      (k : ℕ) (q : List (QueuedTask C))
      → (exec_loop effect others k q).logged ≡ logs (exec_loop effect others k q).ran
  unfolding exec_loop
  loop-logged zero q = refl
  loop-logged (suc k) q = elim (Option-cases (try_pop (apply_all (others (suc k)) q))) [
    | inl empty ↦ rw (empty, exec_loop)
    | inr ((x, rest), found) ↦ elim (Option-cases x.code) [
      | inl no_code ↦ rw (found, exec_loop, no_code) (loop-logged k rest)
      | inr (c, code) ↦
          rw (found, exec_loop, code)
            (ap (λ l. log_of (effect c).outcome ++ l)
              (loop-logged k (apply_all (effect c).calls rest)))
    ]
  ]

  -- One call runs no more tasks than were queued at its entry, or one in the mode `exec_first`, and
  -- logs each exception of a task that it runs once, in order, whatever is enqueued meanwhile.
  pub exec_bounded :
      (mode : ExecutionMode) (q : List (QueuedTask C))
      → let r = exec effect others mode q in
        (length r.ran ≤ elim mode [ exec_first ↦ 1 | exec_all ↦ length q ])
        × (r.logged ≡ logs r.ran)
  unfolding exec
  exec_bounded exec_first q = (loop-ran-le 1 q, loop-logged 1 q)
  exec_bounded exec_all q = (loop-ran-le (length q) q, loop-logged (length q) q)

module _ {C : Type 0} where
  loop_contained :
      (e f : C → Effect C) (others : ℕ → List (Call C))
      → ((c : C) → (e c).calls ≡ (f c).calls)
      → (k : ℕ) (q : List (QueuedTask C))
      → ((exec_loop e others k q).ran ≡ (exec_loop f others k q).ran)
        × ((exec_loop e others k q).queue ≡ (exec_loop f others k q).queue)
  unfolding exec_loop
  loop_contained e f others same zero q = (refl, refl)
  loop_contained e f others same (suc k) q =
      elim (Option-cases (try_pop (apply_all (others (suc k)) q))) [
        | inl empty ↦ rw (empty, exec_loop) (refl, refl)
        | inr ((x, rest), found) ↦ elim (Option-cases x.code) [
          | inl no_code ↦ rw (found, exec_loop, no_code) (loop_contained e f others same k rest)
          | inr (c, code) ↦
              let (ran, left) = loop_contained e f others same k (apply_all (f c).calls rest) in
              rw (found, exec_loop, code, same c) (ap (◌∷◌ c) ran, left)
        ]
      ]

  -- Whether tasks throw or return has no influence on what is run and what stays queued.
  pub exec_contained :
      (e f : C → Effect C) (others : ℕ → List (Call C))
      → ((c : C) → (e c).calls ≡ (f c).calls)
      → (mode : ExecutionMode) (q : List (QueuedTask C))
      → ((exec e others mode q).ran ≡ (exec f others mode q).ran)
        × ((exec e others mode q).queue ≡ (exec f others mode q).queue)
  unfolding exec
  exec_contained e f others same exec_first q = loop_contained e f others same 1 q
  exec_contained e f others same exec_all q = loop_contained e f others same (length q) q

  -- The callables of a row of tasks.
  abbrev pub codes : List (QueuedTask C) → List C
  codes [] = []
  codes (x ∷ xs) = elim x.code [ none ↦ codes xs | some c ↦ c ∷ codes xs ]

  abbrev new_task : Option C → QueuedTask C
  new_task code = record { tag = untagged; code = code }

  -- A task that enqueues the untagged tasks `spawned c` while it runs.
  abbrev enqueuing : List (Option C) → List (Call C)
  enqueuing [] = []
  enqueuing (x ∷ xs) = enqueues x untagged ∷ enqueuing xs

  abbrev pub new_tasks : List (Option C) → List (QueuedTask C)
  new_tasks [] = []
  new_tasks (x ∷ xs) = new_task x ∷ new_tasks xs

  apply_all-enqueuing :
      (xs : List (Option C)) (q : List (QueuedTask C))
      → apply_all (enqueuing xs) q ≡ q ++ new_tasks xs
  unfolding apply_all
  apply_all-enqueuing [] q = ground (arith, append-nil q)
  apply_all-enqueuing (x ∷ xs) q =
      apply_all-enqueuing xs (q ++ new_task x ∷ [])
      ∙ append_assoc q (new_task x ∷ []) (new_tasks xs)

  module _ (spawned : C → List (Option C)) (outcome : C → Outcome) where
    abbrev pub spawning : C → Effect C
    spawning c = record { calls = enqueuing (spawned c); outcome = outcome c }

    abbrev pub all_spawned : List C → List (QueuedTask C)
    all_spawned [] = []
    all_spawned (c ∷ cs) = new_tasks (spawned c) ++ all_spawned cs

    loop_drains :
        (q later : List (QueuedTask C))
        → let r = exec_loop spawning (λ _. []) (length q) (q ++ later) in
          (r.ran ≡ codes q) × (r.queue ≡ later ++ all_spawned (codes q))
    unfolding exec_loop apply_all try_pop
    loop_drains [] later = (refl, ground (arith, append-nil later))
    loop_drains (x ∷ q) later = elim (Option-cases x.code) [
      | inl no_code ↦ rw (no_code, exec_loop) (loop_drains q later)
      | inr (c, code) ↦
          let (ran, left) = loop_drains q (later ++ new_tasks (spawned c)) in
          rw
            (
              code,
              exec_loop,
              apply_all-enqueuing (spawned c) (q ++ later),
              append_assoc q later (new_tasks (spawned c)),
            )
            (
              ap (◌∷◌ c) ran,
              left ∙ append_assoc later (new_tasks (spawned c)) (all_spawned (codes q)),
            )
    ]

    -- With nobody else at work, and tasks that only enqueue untagged ones, `exec(execAll)` runs the
    -- tasks queued at its entry that are callable, each once and in order, however they end; what is
    -- left in the queue are the tasks that these enqueued, in order, none of which has been run.
    pub exec_all_drains :
        (q : List (QueuedTask C))
        → let r = exec spawning (λ _. []) exec_all q in
          (r.ran ≡ codes q) × (r.queue ≡ all_spawned (codes q))
    unfolding exec
    exec_all_drains q =
        subst
          (λ l.
            let r = exec_loop spawning (λ _. []) (length q) l in
            (r.ran ≡ codes q) × (r.queue ≡ all_spawned (codes q)))
          (append-nil q) (loop_drains q [])
