-- ===== src/Lsi/Correct.antt =====
-- `lookup` (include/lsi.hpp) on an index that was fitted to the range.
use learned_secondary_index.Common.{
  ℕ, ◌+◌, ◌-◌, ◌^◌, ◌≤◌, ◌<◌, ◌≡◌, ◌≢◌, ◌↔◌, refl, ap, ◌∙◌, some, List, length, get_elem?, true,
  false, max, dec_lt, arith,
}
use learned_secondary_index.Common.Word.{word}
use learned_secondary_index.Common.Run.{Run, done, out_of_bounds, out_of_fuel, ◌>>=◌}
use learned_secondary_index.Lsi.Index.{Index, sorted_pairs, error_at}
use learned_secondary_index.Lsi.Lookup.{Counters, lookup, with_counters, end, read_base}
use learned_secondary_index.Lsi.Lookup.Exact.{
  lookup_lowerbound, lookup_hit, lookup_absent, lookup_past_end,
}
use learned_secondary_index.Lsi.View.{IsLowerBound}
use learned_secondary_index.Lsi.Fit.{
  keys_at, perm_at, IsFitted, sorted_lem, length-sorted_pairs, sorted-in_base,
}
use learned_secondary_index.Lsi.Order.{lower_bound_of, key-at_boundary}
use learned_secondary_index.Config.{Config}
use learned_secondary_index.Lsi.Fit.MaxError.{max_error_bound, max_error_least}

-- Predictions and ranges are far below 2 ^ 64, so that no sum of them wraps.
abbrev pub quarter : ℕ
quarter = 2 ^ 62

faults_iff {ℓ} :
    {A : Type ℓ} (m : Run ℕ) (a : A) → ((m >>= λ k. done a) ≡ out_of_bounds) ↔ (m ≡ out_of_bounds)
faults_iff (done k) a = (λ e. cc, λ e. cc)
faults_iff out_of_bounds a = (λ e. refl, λ e. refl)
faults_iff out_of_fuel a = (λ e. cc, λ e. cc)

module _ (c : Config) (base : List ℕ) (index : Index c) (fitted : IsFitted c base index) where
  module _ (small : length base < quarter)
      (predictions : (k : ℕ) → c.cdf.predict index.model k < quarter) where
    pub max_error-lt : index.max_error < quarter
    max_error-lt =
        let bound =
          (max_error_least c base index fitted (quarter - 1)).1
            λ l h first. omega (arith, predictions (keys_at c base l)) in
        omega (arith, bound)

    no_wrap : (key : ℕ) → c.cdf.predict index.model key + index.max_error + 1 < word
    no_wrap key = omega (arith, predictions key, max_error-lt)

    module _ (key l : ℕ) (lb : IsLowerBound (keys_at c base) (length base) key l) where
      boundary : IsLowerBound (keys_at c base) index.perm_vector.size key l
      boundary = rw fitted.size_lem lb

      -- Whatever the model predicts, an equality lookup of a key of the range returns the first
      -- position of that key.
      pub lookup_present :
          (d : ℕ)
          → get_elem? base d ≡ some key
          → (n : Counters) × (lookup c false base key index
              ≡ done
                  (with_counters c index n, record { index = l; perm_vector = index.perm_vector }))
      lookup_present d e =
          let (inside, k) = key-at_boundary c base d e lb in
          let error = max_error_bound c base index fitted l inside (λ i h. rw k (lb.1 i h)) in
          let near : error_at (c.cdf.predict index.model) (sorted_pairs c base) key l
              ≤ index.max_error =
            rw k at error in
          lookup_hit c base key index (keys_at c base) (perm_at c base) fitted.represents
            (no_wrap key) l boundary (omega (arith, fitted.size_lem)) k (omega arith) (omega arith)

      -- With a model that is monotone and predicts no position behind the range, a lower bound
      -- lookup of any key returns the first position whose key is not smaller, or `end()`.
      pub lookup_lowerbound_lem :
          ((j k : ℕ) → j ≤ k → c.cdf.predict index.model j ≤ c.cdf.predict index.model k)
          → ((k : ℕ) → c.cdf.predict index.model k ≤ length base)
          → (n : Counters) × (lookup c true base key index
              ≡ done
                  (with_counters c index n, record { index = l; perm_vector = index.perm_vector }))
      lookup_lowerbound_lem monotone in_range =
          let (n, found) =
            lookup_lowerbound c base key index (keys_at c base) (perm_at c base) fitted.represents
              (no_wrap key) l boundary (omega (arith, in_range key, fitted.size_lem)) in
          let near : c.cdf.predict index.model key - index.max_error ≤ l =
            elim (dec_lt l (length base)) [
              | no at_end ↦ omega (arith, in_range key)
              | yes inside ↦
                  let bound =
                    max_error_bound c base index fitted l inside
                      (λ i h. omega (arith, lb.1 i h, lb.2 l)) in
                  omega
                    (arith, bound, monotone key (keys_at c base l) (lb.2 l (omega arith) inside))
            ] in
          let same : max (c.cdf.predict index.model key - index.max_error) l ≡ l = omega arith in
          (n, rw same at found)

    -- On a fitted index, an equality lookup of a key that the range does not hold returns
    -- `end()`, if the search interval, before it is cut off, ends before the last position of the
    -- vector. The range has fewer than 2 ^ 62 keys and the predictions are below 2 ^ 62.
    pub lookup_missing :
        (key : ℕ)
        → ((d : ℕ) → get_elem? base d ≢ some key)
        → c.cdf.predict index.model key + index.max_error + 1 < length base
        → (n : Counters) × (lookup c false base key index
            ≡ done (with_counters c index n, end c index))
    lookup_missing key missing short =
        let (l, lb) =
          lower_bound_of (keys_at c base) key (length base)
            (λ i j p q. sorted_lem c base i j p (omega (arith, length-sorted_pairs c base))) in
        lookup_absent c base key index (keys_at c base) (perm_at c base) fitted.represents
          (no_wrap key) l (boundary key l lb)
          (λ i h e.
            missing (perm_at c base i)
              (sorted-in_base c base i (omega (arith, fitted.size_lem)) ∙ ap some e))
          (omega (arith, fitted.size_lem)) (omega (arith, fitted.size_lem))

    -- On a fitted index, an equality lookup of a key above all keys of the range, whose
    -- prediction is at most the size of the range and whose search interval reaches it, reads the
    -- base data for the value behind the last position: the lookup is out of bounds exactly if
    -- that read is. The range has fewer than 2 ^ 62 keys and the predictions are below 2 ^ 62.
    pub lookup_above_faults :
        (key : ℕ)
        → ((d k : ℕ) → get_elem? base d ≡ some k → k < key)
        → c.cdf.predict index.model key ≤ length base
        → length base ≤ c.cdf.predict index.model key + index.max_error + 1
        → (lookup c false base key index ≡ out_of_bounds)
          ↔ (read_base c index.perm_vector base key index.perm_vector.size ≡ out_of_bounds)
    lookup_above_faults key above from until =
        let (n, found) =
          lookup_past_end c base key index (keys_at c base) (perm_at c base) fitted.represents
            (no_wrap key)
            (λ i h.
              above (perm_at c base i) (keys_at c base i)
                (sorted-in_base c base i (omega (arith, fitted.size_lem))))
            (omega (arith, fitted.size_lem)) (omega (arith, fitted.size_lem)) in
        rw found (
          faults_iff (read_base c index.perm_vector base key index.perm_vector.size)
            (with_counters c index n, end c index))
