-- ===== src/BlockingQueue/Laws.antt =====
-- What a successful operation did to the items.
use cpputils.Base.{
  ℕ, ◌+◌, ◌≡◌, refl, List, [], ◌∷◌, ◌++◌, some, Bool, not, one_if, arith, length, keep_if, sum_of,
}
use cpputils.BlockingQueue.{Queue, push, try_pop, remove_if}

module _ {ℓ} {A : Type ℓ} where
  pub items-push :
      (q q' : Queue A) (x : A) (n : ℕ) → push [] q x ≡ some (q', n) → q'.items ≡ q.items ++ x ∷ []
  unfolding push
  items-push q q' x n e = ground arith

  pub items-try_pop : (q q' : Queue A) (x : A) → try_pop q ≡ (q', some x) → q.items ≡ x ∷ q'.items
  unfolding try_pop
  items-try_pop q q' x e = ground arith

  length-keep_if :
      (p : A → Bool) (xs : List A)
      → length (keep_if (λ x. not (p x)) xs) + sum_of (λ x. one_if (p x)) xs ≡ length xs
  length-keep_if p [] = refl
  length-keep_if p (x ∷ xs) = ground (arith, length-keep_if p xs)

  -- The count that `remove_if` returns is how many items matched.
  pub remove_if_count :
      (p : A → Bool) (q q' : Queue A) (n : ℕ)
      → remove_if p q ≡ (q', n)
      → n ≡ sum_of (λ x. one_if (p x)) q.items
  unfolding remove_if
  remove_if_count p q q' n e = ground (arith, length-keep_if p q.items)

  sum_of-keep_if :
      (w : A → ℕ) (p : A → Bool) (xs : List A)
      → sum_of w (keep_if (λ x. not (p x)) xs) + sum_of w (keep_if p xs) ≡ sum_of w xs
  sum_of-keep_if w p [] = refl
  sum_of-keep_if w p (x ∷ xs) = ground (arith, sum_of-keep_if w p xs)

  pub sum_of-remove_if :
      (w : A → ℕ) (p : A → Bool) (q q' : Queue A) (n : ℕ)
      → remove_if p q ≡ (q', n)
      → sum_of w q'.items + sum_of w (keep_if p q.items) ≡ sum_of w q.items
  unfolding remove_if
  sum_of-remove_if w p q q' n e = ground (arith, sum_of-keep_if w p q.items)
