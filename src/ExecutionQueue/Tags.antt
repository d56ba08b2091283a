-- ===== src/ExecutionQueue/Tags.antt =====
-- A tag replaces older queued work with the same tag.
use mathlib.Core.List.{append-nil}
use cpputils.Base.{
  ℕ, zero, suc, ◌-◌, ◌≤◌, ◌≡◌, refl, ◌≢◌, List, [], ◌∷◌, Option, some, Bool, not, one_if, arith,
  sum_of, sum_of-append, keep_if, keep_if-append, length, Option-cases, inl, inr, if◌then◌else◌,
}
use cpputils.Base.Int.{ℤ, int_eq, int_eq_iff}
use cpputils.ExecutionQueue.{
  QueuedTask, untagged, Call, enqueues, clears, Effect, erase_tag, enqueue, apply, apply_all,
  try_pop, exec_loop, exec, ExecutionMode, exec_first, exec_all,
}

module _ {C : Type 0} where
  abbrev pub has_tag : ℤ → QueuedTask C → Bool
  has_tag t x = int_eq x.tag t

  abbrev pub count_tag : ℤ → List (QueuedTask C) → ℕ
  count_tag t = sum_of (λ x. one_if (has_tag t x))

  -- No tag but `untagged` is queued twice.
  abbrev pub IsDistinct : List (QueuedTask C) → Type 0
  IsDistinct q = (t : ℤ) → t ≢ untagged → count_tag t q ≤ 1

  count_tag-erase_tag :
      (t u : ℤ) (q : List (QueuedTask C))
      → count_tag t (erase_tag u q) ≡ (if int_eq u t then count_tag t q - 1 else count_tag t q)
  unfolding erase_tag
  count_tag-erase_tag t u [] = ground arith
  count_tag-erase_tag t u (x ∷ q) =
      ground
        (arith, count_tag-erase_tag t u q, int_eq_iff x.tag u, int_eq_iff x.tag t, int_eq_iff u t)

  enqueue-IsDistinct :
      (code : Option C) (tag : ℤ) (q : List (QueuedTask C))
      → IsDistinct q
      → IsDistinct (enqueue code tag q)
  unfolding enqueue
  enqueue-IsDistinct code tag q d t ne =
      let new : QueuedTask C = record { tag = tag; code = code } in
      ground (
        arith,
        d t ne,
        sum_of-append (λ (x : QueuedTask C). one_if (has_tag t x)) q (new ∷ []),
        sum_of-append (λ (x : QueuedTask C). one_if (has_tag t x)) (erase_tag tag q) (new ∷ []),
        count_tag-erase_tag t tag q,
        int_eq_iff tag t,
        int_eq_iff tag untagged,
      )

  others-erase_tag :
      (t : ℤ) (q : List (QueuedTask C))
      → keep_if (λ x. not (has_tag t x)) (erase_tag t q) ≡ keep_if (λ x. not (has_tag t x)) q
  unfolding erase_tag
  others-erase_tag t [] = refl
  others-erase_tag t (x ∷ q) = ground (arith, others-erase_tag t q)

  none_tagged : (t : ℤ) (q : List (QueuedTask C)) → count_tag t q ≡ 0 → keep_if (has_tag t) q ≡ []
  none_tagged t [] z = refl
  none_tagged t (x ∷ q) z = ground (arith, none_tagged t q)

  -- A task enqueued with a tag is then the only one with this tag, and all other tasks stay in their
  -- order, if no tag was queued twice.
  pub enqueue_replaces :
      (code : Option C) (tag : ℤ) (q : List (QueuedTask C))
      → tag ≢ untagged
      → IsDistinct q
      → (keep_if (has_tag tag) (enqueue code tag q) ≡ record { tag = tag; code = code } ∷ [])
        × (keep_if (λ x. not (has_tag tag x)) (enqueue code tag q)
            ≡ keep_if (λ x. not (has_tag tag x)) q)
  unfolding enqueue
  enqueue_replaces code tag q ne d =
      let new : QueuedTask C = record { tag = tag; code = code } in
      let gone =
        none_tagged tag (erase_tag tag q)
          (ground (arith, count_tag-erase_tag tag tag q, int_eq_iff tag tag, d tag ne)) in
      (
        ground (
          arith,
          gone,
          keep_if-append (has_tag tag) (erase_tag tag q) (new ∷ []),
          int_eq_iff tag tag,
          int_eq_iff tag untagged,
        ),
        ground (
          arith,
          others-erase_tag tag q,
          keep_if-append (λ (x : QueuedTask C). not (has_tag tag x)) (erase_tag tag q) (new ∷ []),
          append-nil (keep_if (λ (x : QueuedTask C). not (has_tag tag x)) q),
          int_eq_iff tag tag,
          int_eq_iff tag untagged,
        ),
      )

  apply-IsDistinct : (c : Call C) (q : List (QueuedTask C)) → IsDistinct q → IsDistinct (apply c q)
  unfolding apply
  apply-IsDistinct (enqueues code tag) q d = enqueue-IsDistinct code tag q d
  apply-IsDistinct clears q d = λ t ne. omega arith

  pub apply_all-IsDistinct :
      (cs : List (Call C)) (q : List (QueuedTask C)) → IsDistinct q → IsDistinct (apply_all cs q)
  unfolding apply_all
  apply_all-IsDistinct [] q d = d
  apply_all-IsDistinct (c ∷ cs) q d = apply_all-IsDistinct cs (apply c q) (apply-IsDistinct c q d)

module _ {C : Type 0} (effect : C → Effect C) (others : ℕ → List (Call C)) where
  popped-IsDistinct :
      (q : List (QueuedTask C)) (x : QueuedTask C) (rest : List (QueuedTask C))
      → try_pop q ≡ some (x, rest)
      → IsDistinct q
      → IsDistinct rest
  unfolding try_pop
  popped-IsDistinct [] x rest e d t ne = ground arith
  popped-IsDistinct (y ∷ ys) x rest e d t ne = ground (arith, d t ne)

  loop-IsDistinct :
      (k : ℕ) (q : List (QueuedTask C))
      → IsDistinct q
      → IsDistinct (exec_loop effect others k q).queue
  unfolding exec_loop
  loop-IsDistinct zero q d = d
  loop-IsDistinct (suc k) q d =
      let d' = apply_all-IsDistinct (others (suc k)) q d in
      elim (Option-cases (try_pop (apply_all (others (suc k)) q))) [
        | inl empty ↦ rw (empty, exec_loop) (λ t ne. omega arith)
        | inr ((x, rest), found) ↦
            let d'' = popped-IsDistinct (apply_all (others (suc k)) q) x rest found d' in
            elim (Option-cases x.code) [
              | inl no_code ↦ rw (found, exec_loop, no_code) (loop-IsDistinct k rest d'')
              | inr (c, code) ↦
                  rw (found, exec_loop, code)
                    (loop-IsDistinct k (apply_all (effect c).calls rest)
                      (apply_all-IsDistinct (effect c).calls rest d''))
            ]
      ]

  -- Running tasks keeps it so that no tag but `untagged` is queued twice, whatever the tasks and
  -- other threads enqueue meanwhile.
  pub exec-IsDistinct :
      (mode : ExecutionMode) (q : List (QueuedTask C))
      → IsDistinct q
      → IsDistinct (exec effect others mode q).queue
  unfolding exec
  exec-IsDistinct exec_first q d = loop-IsDistinct 1 q d
  exec-IsDistinct exec_all q d = loop-IsDistinct (length q) q d
