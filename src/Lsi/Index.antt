-- ===== src/Lsi/Index.antt =====
-- The state of a LearnedSecondaryIndex (include/lsi.hpp), its construction and `fit`.
use learned_secondary_index.Common.{
  ℕ, zero, suc, ◌+◌, ◌-◌, min, max, ◌==◌, if◌then◌else◌, false, List, [], ◌∷◌, length,
}
use learned_secondary_index.Common.Run.{Run, done, ◌>>=◌}
use learned_secondary_index.Common.Sorting.{Pair, key_at, enumerate}
use learned_secondary_index.PermVector
use learned_secondary_index.PermVector.{PermVector, build}
use learned_secondary_index.Lsi.PairIter.{pair_range, iter_begin, iter_end}
use learned_secondary_index.Config.{Config}

pub record Index (c : Config) : Type 0 where
  pub perm_vector : PermVector c.packing
  pub model : c.cdf.Model
  pub max_error : ℕ
  pub base_data_accesses : ℕ
  pub false_positive_accesses : ℕ

-- the keys of the pairs in [begin, end), as `train` reads them
abbrev pub keys_of : List Pair → List ℕ
keys_of [] = []
keys_of ((k, d) ∷ l) = k ∷ keys_of l

module _ (predict : ℕ → ℕ) (cells : List Pair) where
  -- how far the prediction for a key is from a position
  abbrev pub error_at : ℕ → ℕ → ℕ
  error_at k lower_bound = max (predict k) lower_bound - min (predict k) lower_bound

  -- the loop over `j` that determines `max_error`, with `rounds` of it left
  unfoldable pub error_loop : (rounds j current_lower_bound max_error : ℕ) → ℕ
  error_loop zero j current_lower_bound max_error = max_error
  error_loop (suc rounds) j current_lower_bound max_error =
      let lower_bound =
        if key_at cells current_lower_bound == key_at cells j then current_lower_bound else j in
      error_loop rounds (j + 1) lower_bound (max max_error (error_at (key_at cells j) lower_bound))

module _ (c : Config) where
  -- an empty index
  unfoldable pub new : Index c
  new = record {
    perm_vector = PermVector.new c.packing;
    model = c.cdf.untrained;
    max_error = 0;
    base_data_accesses = 0;
    false_positive_accesses = 0;
  }

  -- `data` of `fit` after `std::sort`
  unfoldable pub sorted_pairs : List ℕ → List Pair
  sorted_pairs base = c.std_sort.sort (enumerate 0 base)

  unfoldable pub fit : List ℕ → Index c → Run (Index c)
  unfolding sorted_pairs
  fit base index =
      let cells = sorted_pairs base in
      do
        perm_vector ←
            build c.packing c.hasher c.fingerprint_size (pair_range false) (iter_begin cells)
              (iter_end cells)
        let model = c.cdf.train (keys_of cells) (length cells) index.model
        done (record index {
          perm_vector = perm_vector;
          model = model;
          max_error = error_loop (c.cdf.predict model) cells (length cells) 0 0 0;
        })

  -- the constructor on a range
  unfoldable pub construct : List ℕ → Run (Index c)
  unfolding fit new
  construct base = fit base new
