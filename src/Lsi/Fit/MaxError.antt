-- ===== src/Lsi/Fit/MaxError.antt =====
-- `max_error` of an index that `fit` (include/lsi.hpp) returned.
use learned_secondary_index.Common.{ℕ, ◌≤◌, ◌<◌, ◌↔◌, List, length, arith}
use learned_secondary_index.Lsi.Index.{Index, sorted_pairs}
use learned_secondary_index.Lsi.Fit.{IsFitted, sorted_lem, length-sorted_pairs}
use learned_secondary_index.Lsi.Fit.Error.{IsFirst, error_of, error_loop_bound, error_loop-le}
use learned_secondary_index.Config.{Config}

module _ (c : Config) (base : List ℕ) (index : Index c) (fitted : IsFitted c base index) where
  -- the error of the model at position `l`
  abbrev model_error : ℕ → ℕ
  model_error = error_of (c.cdf.predict index.model) (sorted_pairs c base)

  -- `max_error` bounds the error at the first occurrence of every key
  pub max_error_bound :
      (l : ℕ)
      → l < length base
      → IsFirst (c.cdf.predict index.model) (sorted_pairs c base) l
      → model_error l ≤ index.max_error
  max_error_bound l h first = rw fitted.max_error_lem (
      error_loop_bound (c.cdf.predict index.model) (sorted_pairs c base) (length base) 0 0 0 l
        (omega arith) (omega arith) first (λ p. absurd (omega arith)))

  -- `max_error` of a fitted index is the least bound on the model's errors at the first
  -- occurrences of the keys: it is at most a number exactly if the error at every first
  -- occurrence is at most that number.
  pub max_error_least :
      (most : ℕ)
      → (index.max_error ≤ most) ↔ (
          (l : ℕ)
          → l < length base
          → IsFirst (c.cdf.predict index.model) (sorted_pairs c base) l
          → model_error l ≤ most)
  max_error_least most = (
    λ le l h first. omega (arith, max_error_bound l h first),
    λ bound. rw fitted.max_error_lem (
        error_loop-le (c.cdf.predict index.model) (sorted_pairs c base) most (sorted_lem c base)
          (λ l h first. bound l (omega (arith, length-sorted_pairs c base)) first) (length base) 0 0
          0 (omega (arith, length-sorted_pairs c base)) (omega arith) (λ i h. absurd (omega arith))
          (λ i h. absurd (omega arith)) (omega arith)),
  )
