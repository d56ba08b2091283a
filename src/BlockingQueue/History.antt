-- ===== src/BlockingQueue/History.antt =====
-- Runs of the queue's atomic operations, from any number of threads in any order, with what went in
-- and what came out.
use cpputils.Base.{
  ℕ, ◌+◌, ◌≤◌, ◌≡◌, refl, List, [], ◌∷◌, ◌++◌, Option, none, some, Bool, not, length, keep_if,
  if◌then◌else◌, arith, length-append, length-keep_if-le,
}
use cpputils.BlockingQueue.{Queue, create, try_push, try_pop, remove_if}
use mathlib.Core.List.{append_assoc, append-nil}

-- An atomic operation: `push` succeeds as a `try_push` does, after rounds that change nothing.
pub data Op {ℓ} (A : Type ℓ) : Type ℓ where
  pushes : A → Op A
  pops : Op A
  removes : (A → Bool) → Op A

-- The queue, the items that it has taken in, those it has given out, and how many it dropped.
pub record History {ℓ} (A : Type ℓ) : Type ℓ where
  pub queue : Queue A
  pub accepted : List A
  pub popped : List A
  pub removed : ℕ

module _ {ℓ} {A : Type ℓ} where
  abbrev given : Option A → List A
  given none = []
  given (some x) = x ∷ []

  abbrev taken : Bool → A → List A
  taken done x = if done then x ∷ [] else []

  pub step : History A → Op A → History A
  step h (pushes x) =
      let (q, r) = try_push h.queue x in
      record h { queue = q; accepted = h.accepted ++ taken r.pushed x }
  step h pops = let (q, r) = try_pop h.queue in record h { queue = q; popped = h.popped ++ given r }
  step h (removes p) =
      let (q, n) = remove_if p h.queue in record h { queue = q; removed = h.removed + n }

  pub run : History A → List (Op A) → History A
  run h [] = h
  run h (op ∷ ops) = run (step h op) ops

  abbrev pub start : ℕ → History A
  start max_size = record { queue = create max_size; accepted = []; popped = []; removed = 0 }

-- The first list is the second with some items left out.
pub data Subseq {ℓ} {A : Type ℓ} : List A → List A → Type ℓ where
  done : Subseq [] []
  keep : (x : A) {xs ys : List A} → Subseq xs ys → Subseq (x ∷ xs) (x ∷ ys)
  skip : (x : A) {xs ys : List A} → Subseq xs ys → Subseq xs (x ∷ ys)

module _ {ℓ} {A : Type ℓ} where
  Subseq-refl : (xs : List A) → Subseq xs xs
  Subseq-refl [] = done
  Subseq-refl (x ∷ xs) = keep x (Subseq-refl xs)

  Subseq-trans : {ys zs : List A} → Subseq ys zs → {xs : List A} → Subseq xs ys → Subseq xs zs
  Subseq-trans done s = s
  Subseq-trans (keep x t) (keep _ s) = keep x (Subseq-trans t s)
  Subseq-trans (keep x t) (skip _ s) = skip x (Subseq-trans t s)
  Subseq-trans (skip x t) s = skip x (Subseq-trans t s)

  Subseq-append : {xs ys : List A} (zs : List A) → Subseq xs ys → Subseq (xs ++ zs) (ys ++ zs)
  Subseq-append zs done = Subseq-refl zs
  Subseq-append zs (keep x s) = keep x (Subseq-append zs s)
  Subseq-append zs (skip x s) = skip x (Subseq-append zs s)

  append-Subseq : (zs : List A) {xs ys : List A} → Subseq xs ys → Subseq (zs ++ xs) (zs ++ ys)
  append-Subseq [] s = s
  append-Subseq (z ∷ zs) s = keep z (append-Subseq zs s)

  keep_if-Subseq : (p : A → Bool) (xs : List A) → Subseq (keep_if p xs) xs
  keep_if-Subseq p [] = done
  keep_if-Subseq p (x ∷ xs) =
      ground (arith, keep x (keep_if-Subseq p xs), skip x (keep_if-Subseq p xs))

  -- Items come out in the order in which they went in, none twice and none made up; every item that
  -- went in has come out, is still queued or was removed; the queue is never over its capacity.
  pub record IsFifo (max_size : ℕ) (h : History A) : Type ℓ where
    pub order : Subseq (h.popped ++ h.queue.items) h.accepted
    pub counted : length h.popped + length h.queue.items + h.removed ≡ length h.accepted
    pub capacity : h.queue.max_size ≡ max_size
    pub bounded : length h.queue.items ≤ max_size

  pushes-IsFifo : {m : ℕ} (h : History A) (x : A) → IsFifo m h → IsFifo m (step h (pushes x))
  unfolding step try_push
  pushes-IsFifo h x v = ground (
    arith,
    length-append h.queue.items (x ∷ []),
    length-append h.accepted (x ∷ []),
    append-nil h.accepted,
    append_assoc h.popped h.queue.items (x ∷ []),
    Subseq-append (x ∷ []) v.order,
  )

  pops-IsFifo :
      {m : ℕ} (h : History A) (xs : List A)
      → h.queue.items ≡ xs
      → IsFifo m h
      → IsFifo m (step h pops)
  unfolding step try_pop
  pops-IsFifo h [] e v = ground (arith, append-nil h.popped)
  pops-IsFifo h (x ∷ xs) e v =
      ground (arith, length-append h.popped (x ∷ []), append_assoc h.popped (x ∷ []) xs)

  removes-IsFifo :
      {m : ℕ} (h : History A) (p : A → Bool) → IsFifo m h → IsFifo m (step h (removes p))
  unfolding step remove_if
  removes-IsFifo h p v = record {
    order =
        Subseq-trans v.order
          (append-Subseq h.popped (keep_if-Subseq (λ x. not (p x)) h.queue.items));
    counted = omega (arith, v.counted, length-keep_if-le (λ x. not (p x)) h.queue.items);
    capacity = v.capacity;
    bounded = omega (arith, v.bounded, length-keep_if-le (λ x. not (p x)) h.queue.items);
  }

  step-IsFifo : {m : ℕ} (h : History A) (op : Op A) → IsFifo m h → IsFifo m (step h op)
  step-IsFifo h (pushes x) v = pushes-IsFifo h x v
  step-IsFifo h pops v = pops-IsFifo h h.queue.items refl v
  step-IsFifo h (removes p) v = removes-IsFifo h p v

  run_from-IsFifo : {m : ℕ} (h : History A) (ops : List (Op A)) → IsFifo m h → IsFifo m (run h ops)
  unfolding run
  run_from-IsFifo h [] v = v
  run_from-IsFifo h (op ∷ ops) v = run_from-IsFifo (step h op) ops (step-IsFifo h op v)

  -- From an empty queue, whatever the operations and their order: items come out in the order in
  -- which they went in, none twice and none made up; every item that went in has come out, is still
  -- queued or was removed; the queue keeps its capacity and is never over it.
  pub run-IsFifo : (max_size : ℕ) (ops : List (Op A)) → IsFifo max_size (run (start max_size) ops)
  run-IsFifo m ops =
      run_from-IsFifo (start m) ops
        (record { order = done; counted = refl; capacity = refl; bounded = omega arith })
