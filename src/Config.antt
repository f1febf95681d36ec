-- ===== src/Config.antt =====
-- What the template LearnedSecondaryIndex (include/lsi.hpp) is instantiated with, and the library
-- code that it calls.
use learned_secondary_index.Common.{ℕ, Bool, List}
use learned_secondary_index.Common.Sorting.{Pair, IsSortedByKey}
use learned_secondary_index.Bitpacking.{BitPacking}
use learned_secondary_index.Fingerprinter.{Hasher}
use mathlib.Core.List.{Perm}

-- `std::sort` with `d1.first < d2.first`: it need not be stable.
pub record StdSort : Type 0 where
  pub sort : List Pair → List Pair
  pub sort-perm : (l : List Pair) → Perm (sort l) l
  pub sort-IsSorted : (l : List Pair) → IsSortedByKey (sort l)

-- A model of the library learned_hashing. `train` is given the keys of the range and their number.
pub record CdfModel : Type 1 where
  pub Model : Type 0
  pub untrained : Model
  pub train : List ℕ → ℕ → Model → Model
  pub predict : Model → ℕ → ℕ
  pub byte_size : Model → ℕ

pub record Config : Type 1 where
  pub packing : BitPacking
  pub hasher : Hasher
  pub std_sort : StdSort
  pub cdf : CdfModel
  pub fingerprint_size : ℕ
  pub force_linear_search : Bool
