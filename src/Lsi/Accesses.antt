-- ===== src/Lsi/Accesses.antt =====
-- How often an equality lookup reads the base data (include/lsi.hpp).
use learned_secondary_index.Common.{
  true, ℕ, suc, ◌+◌, ◌-◌, ◌*◌, ◌^◌, ◌≤◌, ◌<◌, ◌≡◌, ap, ◌∙◌, ltb, ◌==◌, if◌then◌else◌, ◌||◌, false,
  List, some, length, get_elem?, arith, min,
}
use learned_secondary_index.Common.Word.{add64, sub64, sub64_exact}
use learned_secondary_index.Common.Run.{Run, done, out_of_bounds, out_of_fuel, ◌>>=◌}
use learned_secondary_index.Lsi.Index.{Index}
use learned_secondary_index.Lsi.PermIter.{PermIter}
use learned_secondary_index.Lsi.Lookup.{
  Counters, read_base, settle, search_interval, start_at, stop_at, with_counters, lookup,
}
use learned_secondary_index.Lsi.Fit.{
  IsFitted, keys_at, perm_at, sorted_lem, length-sorted_pairs, sorted-in_base,
}
use learned_secondary_index.Lsi.Order.{lower_bound_of, key-at_boundary}
use learned_secondary_index.Lsi.Correct.{quarter, max_error-lt, lookup_present}
use learned_secondary_index.Config.{Config}
use learned_secondary_index.Lsi.Lookup.Counts.{
  counted, binary_search-counted, linear_search-counted,
}

module _ (c : Config) (base : List ℕ) (key : ℕ) (index : Index c) where
  search_interval-counted :
      (k : ℕ)
      → (c.force_linear_search || ltb 0 c.fingerprint_size) ≡ false
      → c.cdf.predict index.model key + index.max_error + 1 < 2 ^ 63
      → 2 * index.max_error + 1 < 2 ^ k
      → index.base_data_accesses + k < 2 ^ 64
      → counted (search_interval c false base key index) ≤ index.base_data_accesses + k
  unfolding search_interval add64 sub64
  search_interval-counted k binary near interval room =
      let pred = c.cdf.predict index.model key in
      let from : sub64 pred (min pred index.max_error) ≡ pred - min pred index.max_error =
        sub64_exact pred (min pred index.max_error) (omega arith) (omega arith) in
      rw binary (
        binary_search-counted c index.perm_vector base key
          (suc (stop_at c false base key index - start_at c false base key index))
          (start_at c false base key index) (stop_at c false base key index) k
          (record {
            base_data = index.base_data_accesses;
            false_positive = index.false_positive_accesses;
          })
          (omega arith) (omega arith) room)

  search_interval-counted_linear :
      (c.force_linear_search || ltb 0 c.fingerprint_size) ≡ true
      → c.cdf.predict index.model key + index.max_error + 1 < 2 ^ 63
      → index.base_data_accesses + (2 * index.max_error + 1) < 2 ^ 64
      → counted (search_interval c false base key index)
        ≤ index.base_data_accesses + (2 * index.max_error + 1)
  unfolding search_interval add64 sub64
  search_interval-counted_linear linear near room =
      let pred = c.cdf.predict index.model key in
      let from : sub64 pred (min pred index.max_error) ≡ pred - min pred index.max_error =
        sub64_exact pred (min pred index.max_error) (omega arith) (omega arith) in
      let start = start_at c false base key index in
      let stop = stop_at c false base key index in
      let reads =
        linear_search-counted c index.perm_vector base key false (suc (stop - start)) start stop
          (record {
            base_data = index.base_data_accesses;
            false_positive = index.false_positive_accesses;
          })
          (omega arith) (omega arith) in
      rw linear (omega arith)

  abbrev raised : Run (Index c × PermIter c) → ℕ
  raised (done (index', it)) = index'.base_data_accesses
  raised out_of_bounds = 0
  raised out_of_fuel = 0

  raised-bind :
      (m : Run (ℕ × Counters)) (f : ℕ × Counters → Run (Index c × PermIter c))
      → ((found : ℕ) (n : Counters) → raised (f (found, n)) ≤ n.base_data)
      → raised (m >>= f) ≤ counted m
  raised-bind (done (found, n)) f h = h found n
  raised-bind out_of_bounds f h = omega arith
  raised-bind out_of_fuel f h = omega arith

  abbrev returned : ℕ × Counters → Run (Index c × PermIter c)
  returned (ind, n) =
      done (with_counters c index n, record { index = ind; perm_vector = index.perm_vector })

  raised-read :
      (m : Run ℕ) (at : ℕ → ℕ) (n : Counters)
      → raised ((m >>= λ k. done (at k, n)) >>= returned) ≤ n.base_data
  raised-read (done k) at n = omega arith
  raised-read out_of_bounds at n = omega arith
  raised-read out_of_fuel at n = omega arith

  lookup-counted :
      raised (lookup c false base key index) ≤ counted (search_interval c false base key index)
  unfolding lookup settle
  lookup-counted =
      raised-bind (search_interval c false base key index)
        (λ p. settle c index.perm_vector base key false p.0 p.1 >>= returned)
        (λ found n.
          raised-read (read_base c index.perm_vector base key found)
            (λ k. if k == key then found else index.perm_vector.size) n)

module _ (c : Config) (base : List ℕ) (index : Index c) (fitted : IsFitted c base index)
    (small : length base < quarter)
    (predictions : (key : ℕ) → c.cdf.predict index.model key < quarter) (d key : ℕ)
    (e : get_elem? base d ≡ some key) where
  -- a lookup that returns an iterator to the key, with a bound on the counter
  abbrev pub FindsWithin : (most : ℕ) → Type 0
  FindsWithin most =
      (index' : Index c) × (it : PermIter c) × (lookup c false base key index ≡ done (index', it))
      × (get_elem? base (perm_at c base it.index) ≡ some key)
      × (index'.base_data_accesses ≤ most)

  finds_within :
      (most : ℕ) → counted (search_interval c false base key index) ≤ most → FindsWithin most
  finds_within most counts =
      let (l, lb) =
        lower_bound_of (keys_at c base) key (length base)
          (λ i j p q. sorted_lem c base i j p (omega (arith, length-sorted_pairs c base))) in
      let (n, found) = lookup_present c base index fitted small predictions key l lb d e in
      let (inside, here) = key-at_boundary c base d e lb in
      let total = rw found at (lookup-counted c base key index) in
      (
        with_counters c index n,
        record { index = l; perm_vector = index.perm_vector },
        found,
        sorted-in_base c base l inside ∙ ap some here,
        omega arith,
      )

  near : c.cdf.predict index.model key + index.max_error + 1 < 2 ^ 63
  near = omega (arith, predictions key, max_error-lt c base index fitted small predictions)

  -- On a fitted index that searches by halving the interval, an equality lookup of a key of the
  -- range returns an iterator to the key, and raises the counter of base data accesses by at most
  -- `k`, if 2 * `max_error` + 1 is below 2 ^ `k`. The range has fewer than 2 ^ 62 keys, the
  -- predictions are below 2 ^ 62, and the counter stays below 2 ^ 64.
  pub lookup_present-accesses :
      (k : ℕ)
      → (c.force_linear_search || ltb 0 c.fingerprint_size) ≡ false
      → 2 * index.max_error + 1 < 2 ^ k
      → index.base_data_accesses + k < 2 ^ 64
      → FindsWithin (index.base_data_accesses + k)
  lookup_present-accesses k binary interval room =
      finds_within (index.base_data_accesses + k)
        (search_interval-counted c base key index k binary near interval room)

  -- On a fitted index that searches linearly, an equality lookup of a key of the range returns an
  -- iterator to the key, and raises the counter of base data accesses by at most 2 * `max_error`
  -- + 1. The range has fewer than 2 ^ 62 keys, the predictions are below 2 ^ 62, and the counter
  -- stays below 2 ^ 64.
  pub lookup_present-accesses_linear :
      (c.force_linear_search || ltb 0 c.fingerprint_size) ≡ true
      → index.base_data_accesses + (2 * index.max_error + 1) < 2 ^ 64
      → FindsWithin (index.base_data_accesses + (2 * index.max_error + 1))
  lookup_present-accesses_linear linear room =
      finds_within (index.base_data_accesses + (2 * index.max_error + 1))
        (search_interval-counted_linear c base key index linear near room)
