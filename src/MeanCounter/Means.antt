-- ===== src/MeanCounter/Means.antt =====
-- What the three means are, and that `reset` forgets what came before.
use cpputils.Base.{◌+◌, ◌<◌, ◌≡◌, List, [], ◌∷◌, length, arith, u64_mod}
use cpputils.MeanCounter.{
  Arithmetic, MeanCounter, create, process, process_all, reset, smoothed, smooth_mean,
  arithmetic_mean, geometric_mean,
}

module _ {T F D R : Type 0} (a : Arithmetic T F D R) where
  -- The sums in the order of the values, from a sum so far.
  abbrev sum_from : T → List T → T
  sum_from s [] = s
  sum_from s (v ∷ vs) = sum_from (a.add s v) vs

  abbrev log_sum_from : D → List T → D
  log_sum_from s [] = s
  log_sum_from s (v ∷ vs) = log_sum_from (a.add_double s (a.log (a.to_double v))) vs

  abbrev smooth_from : F → F → List T → F
  smooth_from factor m [] = m
  smooth_from factor m (v ∷ vs) = smooth_from factor (smoothed a factor m v) vs

  process_all_lem :
      (vs : List T) (c : MeanCounter T F D)
      → 0 < c.counter
      → c.counter + length vs < u64_mod
      → process_all a vs c ≡ record {
        arith_mean_accumulator = sum_from c.arith_mean_accumulator vs;
        log_sum_accumulator = log_sum_from c.log_sum_accumulator vs;
        smooth_mean_accumulator = smooth_from c.smoothing_factor c.smooth_mean_accumulator vs;
        smoothing_factor = c.smoothing_factor;
        counter = c.counter + length vs;
      }
  unfolding process_all
  process_all_lem [] c pos fits = ground arith
  process_all_lem (v ∷ vs) c pos fits =
      ground (arith, process_all_lem vs (process a v c) (ground arith) (ground arith))

  -- After a first value and more, the arithmetic mean is the sum over the count, the geometric mean
  -- the exponential of the sum of the logarithms over the count, and the smooth mean starts at the
  -- first value and is moved by each later one. (The count fits a `size_t`.)
  pub means_lem :
      (factor : F) (v : T) (vs : List T)
      → 1 + length vs < u64_mod
      → let c = process_all a (v ∷ vs) (create a factor) in
        let n = 1 + length vs in
        (arithmetic_mean a c ≡ a.divide (sum_from a.nought (v ∷ vs)) (a.count_value n))
        × (geometric_mean a c
            ≡ a.of_double (
                a.exp (a.divide_double (log_sum_from a.double_nought (v ∷ vs)) (a.count_double n))))
        × (smooth_mean a c ≡ a.of_float (smooth_from factor (a.to_float v) vs))
  unfolding process_all create arithmetic_mean geometric_mean smooth_mean
  means_lem factor v vs fits =
      ground
        (arith, process_all_lem vs (process a v (create a factor)) (ground arith) (ground arith))

  -- From the first value after `reset()` on, a counter is as a new one that got the same values.
  pub reset-process_all :
      (c : MeanCounter T F D) (v : T) (vs : List T)
      → process_all a (v ∷ vs) (reset a c) ≡ process_all a (v ∷ vs) (create a c.smoothing_factor)
  unfolding process_all process create reset
  reset-process_all c v vs = ground arith
