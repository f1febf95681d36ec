-- ===== src/Random.antt =====
-- The random sources of the standard library that the datasets, the probing sets and the benchmarks
-- draw from: a generator's state is passed along.
use learned_secondary_index.Common.{ℕ, ◌≤◌, ◌<◌, ◌^◌, List}
use mathlib.Core.List.{Perm}

pub record Random : Type 1 where
  pub Rng : Type 0
  -- `std::uniform_int_distribution<size_t>(low, high)`
  pub uniform : (low high : ℕ) → Rng → ℕ × Rng
  -- `std::uniform_int_distribution<int>(low, high)`, an `int` as its 32 bits
  pub uniform_int : (low high : ℕ) → Rng → ℕ × Rng
  -- `std::shuffle`
  pub shuffle : List ℕ → Rng → List ℕ × Rng
  -- a draw of `std::normal_distribution`, cut off, rescaled and rounded as the source does it in
  -- floating point
  pub normal : Rng → ℕ × Rng
  -- `bound * std::min(1.0, dist(rng))` for an exponential distribution, converted to an index
  pub exponential : (bound : ℕ) → Rng → ℕ × Rng
  -- for bounds that are not negative
  pub uniform_int_bounds :
      (low high : ℕ) (g : Rng)
      → low ≤ high
      → high < 2 ^ 31
      → (low ≤ (uniform_int low high g).0) × ((uniform_int low high g).0 ≤ high)
  -- as far as a `double` holds every integer
  pub exponential-le : (bound : ℕ) (g : Rng) → bound ≤ 2 ^ 53 → (exponential bound g).0 ≤ bound
  pub shuffle-perm : (l : List ℕ) (g : Rng) → Perm (shuffle l g).0 l
