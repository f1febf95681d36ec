-- ===== src/Lsi/Lookup.antt =====
-- `LearnedSecondaryIndex::lookup` (include/lsi.hpp), with its three loops. Each takes rounds of fuel;
-- `Lsi/Lookup/Exact.antt` has how many are enough.
pub mod Loops
pub mod Linear
pub mod Exact
pub mod Counts
use learned_secondary_index.Common.{
  ℕ, zero, suc, ◌+◌, ◌-◌, ◌<◌, min, max, ltb, leb, ◌==◌, if◌then◌else◌, Bool, true, false, not,
  ◌&&◌, ◌||◌, List, length, get_elem?,
}
use learned_secondary_index.Common.Word.{add64, sub64, midpoint}
use learned_secondary_index.Common.Run.{Run, done, out_of_fuel, ◌>>=◌, read}
use learned_secondary_index.PermVector
use learned_secondary_index.PermVector.{PermVector, Value, deserialize}
use learned_secondary_index.Lsi.Index.{Index}
use learned_secondary_index.Lsi.PermIter
use learned_secondary_index.Lsi.PermIter.{PermIter}
use learned_secondary_index.Config.{Config}

-- `_base_data_accesses` and `_false_positive_accesses`
pub record Counters : Type 0 where
  pub base_data : ℕ
  pub false_positive : ℕ

abbrev pub incr_base_accesses : Counters → Counters
incr_base_accesses n = record n { base_data = add64 n.base_data 1 }

abbrev pub incr_false_positives : Counters → Counters
incr_false_positives n = record n { false_positive = add64 n.false_positive 1 }

-- The loops read the permutation vector `v`, the range `base` and the key that is looked up.
module _ (c : Config) (v : PermVector c.packing) (base : List ℕ) (key : ℕ) where
  abbrev pub iter_at : ℕ → PermIter c
  iter_at i = record { index = i; perm_vector = v }

  -- `*(begin + _perm_vector[i].index)`
  unfoldable pub read_base : ℕ → Run ℕ
  read_base i = do
    value ← deserialize c.packing c.hasher c.fingerprint_size v i
    read (get_elem? base value.index)

  -- whether the fingerprint bits let the linear search pass over a value
  unfoldable pub passes_over : Bool → Value → Bool
  passes_over lowerbound value =
      not lowerbound && not (PermVector.test c.packing c.hasher c.fingerprint_size key value)

  -- `for (; ind < stop; ind++)`
  unfoldable pub linear_search : Bool → (fuel ind stop : ℕ) → Counters → Run (ℕ × Counters)
  linear_search lowerbound zero ind stop n = out_of_fuel
  linear_search lowerbound (suc fuel) ind stop n =
      let passed = linear_search lowerbound fuel (add64 ind 1) stop n in
      let missed =
        linear_search lowerbound fuel (add64 ind 1) stop
          (incr_false_positives (incr_base_accesses n)) in
      let probe = (do
        value ← PermIter.value c (iter_at ind)
        if passes_over lowerbound value then passed else (do
          k ← read (get_elem? base value.index)
          if leb key k then done (ind, incr_base_accesses n) else missed)) in
      if PermIter.before c (iter_at ind) (iter_at stop) then probe else done (ind, n)

  -- `while (start_i < stop_i)`
  unfoldable pub binary_search : (fuel start stop : ℕ) → Counters → Run (ℕ × Counters)
  binary_search zero start stop n = out_of_fuel
  binary_search (suc fuel) start stop n =
      let mid = midpoint start stop in
      let upper = binary_search fuel (add64 mid 1) stop (incr_base_accesses n) in
      let lower = binary_search fuel start mid (incr_base_accesses n) in
      if ltb start stop
      then (do probed ← read_base mid; if ltb probed key then upper else lower)
      else done (start, n)

  -- `while (ind != this->end() && *(begin + *ind) < key)`
  unfoldable pub skip_smaller : (fuel ind : ℕ) → Counters → Run (ℕ × Counters)
  skip_smaller zero ind n = out_of_fuel
  skip_smaller (suc fuel) ind n =
      let more = skip_smaller fuel (add64 ind 1) (incr_base_accesses n) in
      if PermIter.iter_ne c (iter_at ind) (iter_at v.size)
      then (do k ← read_base ind; if ltb k key then more else done (ind, n))
      else done (ind, n)

  -- what follows either search
  unfoldable pub settle : Bool → ℕ → Counters → Run (ℕ × Counters)
  settle true ind n = skip_smaller (suc v.size) ind n
  settle false ind n = do k ← read_base ind; done (if k == key then ind else v.size, n)

abbrev pub with_counters : (c : Config) → Index c → Counters → Index c
with_counters c index n = record index {
  base_data_accesses = n.base_data;
  false_positive_accesses = n.false_positive;
}

module _ (c : Config) (lowerbound : Bool) (base : List ℕ) (key : ℕ) (index : Index c) where
  abbrev pub predicted : ℕ
  predicted = c.cdf.predict index.model key

  -- the search interval
  abbrev pub start_at : ℕ
  start_at = sub64 predicted (min predicted index.max_error)

  abbrev pub stop_at : ℕ
  stop_at = min (add64 (add64 predicted index.max_error) 1) index.perm_vector.size

  -- the search that `force_linear_search || fingerprint_size > 0` chooses
  unfoldable pub search_interval : Run (ℕ × Counters)
  search_interval =
      let v = index.perm_vector in
      let fuel = suc (stop_at - start_at) in
      let n : Counters = record {
        base_data = index.base_data_accesses;
        false_positive = index.false_positive_accesses;
      } in
      if c.force_linear_search || ltb 0 c.fingerprint_size
      then linear_search c v base key lowerbound fuel start_at stop_at n
      else binary_search c v base key fuel start_at stop_at n

  -- the index with its counters raised, and the iterator that is returned
  unfoldable pub lookup : Run (Index c × PermIter c)
  unfolding search_interval
  lookup = do
    (found, n) ← search_interval
    (ind, n') ← settle c index.perm_vector base key lowerbound found n
    done (with_counters c index n', record { index = ind; perm_vector = index.perm_vector })

module _ (c : Config) (index : Index c) where
  unfoldable pub begin : PermIter c
  begin = record { index = 0; perm_vector = index.perm_vector }

  unfoldable pub end : PermIter c
  end = record { index = index.perm_vector.size; perm_vector = index.perm_vector }

  unfoldable pub perm_vector_byte_size : (sizeof_perm_vector : ℕ) → ℕ
  perm_vector_byte_size size = PermVector.byte_size c.packing size index.perm_vector

  unfoldable pub model_byte_size : ℕ
  model_byte_size = c.cdf.byte_size index.model

  -- `sizeof(max_error)` is 8
  unfoldable pub byte_size : (sizeof_perm_vector : ℕ) → ℕ
  unfolding perm_vector_byte_size model_byte_size
  byte_size size = 8 + model_byte_size + perm_vector_byte_size size
