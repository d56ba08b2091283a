-- ===== src/ThreadPool/Worker.antt =====
-- `State::runWorker`: one round of a worker's loop.
use cpputils.Base.{
  ℕ, ◌≡◌, refl, ◌⊎◌, inl, inr, List, ◌∷◌, none, some, Bool, true, false, if◌then◌else◌, arith,
  Option-cases, Bool-cases,
}
use mathlib.Core.Path.{subst}
use cpputils.ThreadPool.State.{TaggedTask, State, tagged_task_can_run, complete_tagged_task}
use cpputils.ThreadPool.Steps.{Frame, Move, taken, running, finished, starts, skips, completes}
use cpputils.ThreadPool.Stealing.{try_get_task, Taken, try_get_task-some}

module _ (lane_mod : ℕ → ℕ) {T : Type 0} where
  -- One round of the loop of `runWorker`, with what the task does to the pool; the Boolean is `ran`.
  unfoldable pub worker_round : (T → State T → State T) → ℕ → State T → Bool × State T
  unfolding try_get_task tagged_task_can_run complete_tagged_task
  worker_round effect own s = elim (try_get_task lane_mod own s) [
    | none ↦ (false, s)
    | some (item, s₁) ↦
        let s₂ = if tagged_task_can_run item.tag_state s₁ then effect item.task s₁ else s₁ in
        (true, complete_tagged_task item.tag_state s₂)
  ]

  -- A worker that has a task goes through the pool's steps: it takes the task, runs it if its tag is
  -- not retired and skips it otherwise, and accounts for it, whatever the task does meanwhile.
  pub worker_round-steps :
      (effect : T → State T → State T) (own : ℕ) (s s' : State T) (fs : List (Frame T))
      → worker_round effect own s ≡ (true, s')
      → (item : TaggedTask T) × (s₁ : State T) × (s₂ : State T) × Taken lane_mod s item s₁ fs
        × ((Move lane_mod s₁ (taken item ∷ fs) s₁ (running item ∷ fs) × (s₂ ≡ effect item.task s₁))
            ⊎ (Move lane_mod s₁ (taken item ∷ fs) s₁ (finished item ∷ fs) × (s₂ ≡ s₁)))
        × Move lane_mod s₂ (finished item ∷ fs) s' fs
  unfolding worker_round
  worker_round-steps effect own s s' fs e = elim (Option-cases (try_get_task lane_mod own s)) [
    | inl nothing ↦ absurd (ground arith)
    | inr ((item, s₁), got) ↦
        let took = try_get_task-some lane_mod own s s₁ item fs got in
        elim (Bool-cases (tagged_task_can_run item.tag_state s₁)) [
          | inl may_run ↦
              let s₂ = effect item.task s₁ in
              let after : complete_tagged_task item.tag_state s₂ ≡ s' = ground arith in
              (
                item,
                s₁,
                s₂,
                took,
                inl (starts may_run, refl),
                subst (λ z. Move lane_mod s₂ (finished item ∷ fs) z fs) after completes,
              )
          | inr retired ↦
              let after : complete_tagged_task item.tag_state s₁ ≡ s' = ground arith in
              (
                item,
                s₁,
                s₁,
                took,
                inr (skips retired, refl),
                subst (λ z. Move lane_mod s₁ (finished item ∷ fs) z fs) after completes,
              )
        ]
  ]
