-- ===== src/ThreadPool/Lanes.antt =====
-- What a lane's operations do to a weight summed over the tasks in all lanes.
use cpputils.Base.{
  ℕ, zero, suc, ◌+◌, ◌≡◌, refl, List, [], ◌∷◌, some, Bool, arith, get_elem?, set, sum_of, keep_if,
  sum_of-append, sum_of-set, replicate,
}
use cpputils.BlockingQueue.{Queue, create, push, try_pop, remove_if}
use cpputils.BlockingQueue.Laws.{items-push, items-try_pop, sum_of-remove_if}

module _ {A : Type 0} where
  abbrev pub queue_sum : (A → ℕ) → Queue A → ℕ
  queue_sum w q = sum_of w q.items

  abbrev pub on_lanes : (A → ℕ) → List (Queue A) → ℕ
  on_lanes w lanes = sum_of (queue_sum w) lanes

  pub on_lanes-create : (w : A → ℕ) (n k : ℕ) → on_lanes w (replicate n (create k)) ≡ 0
  on_lanes-create w zero k = refl
  on_lanes-create w (suc n) k = omega (arith, on_lanes-create w n k)

  module _ (w : A → ℕ) (lanes : List (Queue A)) (i : ℕ) (q q' : Queue A)
      (at_i : get_elem? lanes i ≡ some q) where
    pub on_lanes-push :
        (x : A) (n : ℕ)
        → push [] q x ≡ some (q', n)
        → on_lanes w (set lanes i q') ≡ on_lanes w lanes + w x
    on_lanes-push x n e = ground (
      arith,
      items-push q q' x n e,
      sum_of-set (queue_sum w) lanes i q' q at_i,
      sum_of-append w q.items (x ∷ []),
    )

    pub on_lanes-pop :
        (x : A) → try_pop q ≡ (q', some x) → on_lanes w (set lanes i q') + w x ≡ on_lanes w lanes
    on_lanes-pop x e =
        ground (arith, items-try_pop q q' x e, sum_of-set (queue_sum w) lanes i q' q at_i)

    pub on_lanes-remove :
        (p : A → Bool) (n : ℕ)
        → remove_if p q ≡ (q', n)
        → on_lanes w (set lanes i q') + sum_of w (keep_if p q.items) ≡ on_lanes w lanes
    on_lanes-remove p n e =
        omega (arith, sum_of-remove_if w p q q' n e, sum_of-set (queue_sum w) lanes i q' q at_i)
