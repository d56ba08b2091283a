-- ===== src/MeanCounter.antt =====
-- math/cmeancounter.h: `CMeanCounter<T>`. Floating-point arithmetic, `std::log` and `std::exp` are
-- the operations of a record, of which no law is assumed: rounding is theirs.
pub mod Means
use cpputils.Base.{ℕ, ◌+◌, List, [], ◌∷◌, if◌then◌else◌, ltb, ◌==◌, add64}

-- Values, `float`, `double`, and what `value - _smoothMeanAccumulator` has for its type.
pub record Arithmetic (T F D R : Type 0) : Type 0 where
  pub nought : T
  pub add : T → T → T
  pub divide : T → T → T
  pub count_value : ℕ → T
  pub to_double : T → D
  pub of_double : D → T
  pub to_float : T → F
  pub of_float : F → T
  pub float_nought : F
  pub difference : T → F → R
  pub scale : F → R → R
  pub add_scaled : F → R → F
  pub double_nought : D
  pub add_double : D → D → D
  pub divide_double : D → D → D
  pub count_double : ℕ → D
  pub log : D → D
  pub exp : D → D

pub record MeanCounter (T F D : Type 0) : Type 0 where
  pub arith_mean_accumulator : T
  pub log_sum_accumulator : D
  pub smooth_mean_accumulator : F
  pub smoothing_factor : F
  pub counter : ℕ

module _ {T F D R : Type 0} (a : Arithmetic T F D R) where
  -- The constructor.
  unfoldable pub create : F → MeanCounter T F D
  create factor = record {
    arith_mean_accumulator = a.nought;
    log_sum_accumulator = a.double_nought;
    smooth_mean_accumulator = a.float_nought;
    smoothing_factor = factor;
    counter = 0;
  }

  unfoldable pub smooth_mean : MeanCounter T F D → T
  smooth_mean c = a.of_float c.smooth_mean_accumulator

  unfoldable pub arithmetic_mean : MeanCounter T F D → T
  arithmetic_mean c =
      if ltb 0 c.counter
      then a.divide c.arith_mean_accumulator (a.count_value c.counter)
      else a.nought

  unfoldable pub geometric_mean : MeanCounter T F D → T
  geometric_mean c =
      if ltb 0 c.counter
      then a.of_double (a.exp (a.divide_double c.log_sum_accumulator (a.count_double c.counter)))
      else a.nought

  unfoldable pub reset : MeanCounter T F D → MeanCounter T F D
  reset c = record c {
    arith_mean_accumulator = a.nought;
    log_sum_accumulator = a.double_nought;
    counter = 0;
  }

  -- `_smoothMeanAccumulator += _smoothingFactor * (value - _smoothMeanAccumulator)`
  abbrev pub smoothed : F → F → T → F
  smoothed factor mean value = a.add_scaled mean (a.scale factor (a.difference value mean))

  unfoldable pub process : T → MeanCounter T F D → MeanCounter T F D
  process value c =
      let n = add64 c.counter 1 in
      record c {
        arith_mean_accumulator = a.add c.arith_mean_accumulator value;
        log_sum_accumulator = a.add_double c.log_sum_accumulator (a.log (a.to_double value));
        smooth_mean_accumulator =
            if n == 1
            then a.to_float value
            else smoothed c.smoothing_factor c.smooth_mean_accumulator value;
        counter = n;
      }

  unfoldable pub process_all : List T → MeanCounter T F D → MeanCounter T F D
  unfolding process
  process_all [] c = c
  process_all (v ∷ vs) c = process_all vs (process v c)
