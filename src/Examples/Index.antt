-- ===== src/Examples/Index.antt =====
-- The results about `fit` and `lookup`, over a range of five keys with a duplicate.
use learned_secondary_index.Common.{
  ℕ, zero, suc, ◌⊎◌, ◌-◌, ◌≤◌, ◌<◌, ◌≡◌, ◌↔◌, refl, ap, ◌∙◌, List, [], ◌∷◌, length, get_elem?, some,
  true, false, max, arith,
}
use learned_secondary_index.Common.Run.{done, out_of_bounds}
use learned_secondary_index.Lsi.Index.{Index, new, fit, sorted_pairs, keys_of, error_loop}
use learned_secondary_index.Lsi.PermIter.{PermIter}
use learned_secondary_index.Lsi.PermIter
use learned_secondary_index.Lsi.Lookup.{Counters, lookup, with_counters, end, read_base}
use learned_secondary_index.Lsi.View.{IsLowerBound}
use learned_secondary_index.Lsi.Lookup.Exact.{lookup_lowerbound, lookup_sound}
use learned_secondary_index.Lsi.Fit.{IsFitted, keys_at, perm_at, fit-IsFitted}
use learned_secondary_index.Lsi.Fit.Error.{IsFirst, error_of}
use learned_secondary_index.Lsi.Fit.MaxError.{max_error_least}
use learned_secondary_index.Lsi.Occurrences.{occurrences-reached}
use learned_secondary_index.Lsi.Contract.{fit-lookup, fit-lookup_lowerbound}
use learned_secondary_index.Lsi.Correct.{
  quarter, lookup_present, lookup_missing, lookup_above_faults,
}
use learned_secondary_index.Config.{Config}
use learned_secondary_index.Instances.{sample_config}
use learned_secondary_index.Instances.Sort.{sort, insert}

abbrev sample : List ℕ
sample = 40 ∷ 20 ∷ 70 ∷ 20 ∷ 10 ∷ []

abbrev c : Config
c = sample_config 8 false

few : length sample < quarter
few = omega arith

near : (m k : ℕ) → c.cdf.predict m k < quarter
near m k = omega arith

fit-lookup_example :
    (index index' : Index c) × (it : PermIter c) × (d' : ℕ) × (fit c sample (new c) ≡ done index)
    × (lookup c false sample 20 index ≡ done (index', it))
    × (PermIter.deref c it ≡ done d')
    × (get_elem? sample d' ≡ some 20)
    × IsLowerBound (keys_at c sample) 5 20 it.index
fit-lookup_example = fit-lookup c sample (new c) 3 20 refl few near

fit-lookup_lowerbound_example :
    (index index' : Index c) × (it : PermIter c) × (fit c sample (new c) ≡ done index)
    × (lookup c true sample 30 index ≡ done (index', it))
    × IsLowerBound (keys_at c sample) 5 30 it.index
    × ((it.index ≡ 5) → it ≡ end c index)
fit-lookup_lowerbound_example =
    fit-lookup_lowerbound c sample (new c) 30 few (λ m j k le. omega arith) (λ m k. within m k)
  where
    within :
        (m k : ℕ)
        → c.cdf.predict (c.cdf.train (keys_of (sorted_pairs c sample)) (length sample) m) k ≤ 5
    within m k = omega arith

fit-IsFitted_example :
    (index' : Index c) × (fit c sample (new c) ≡ done index')
    × IsFitted c sample index'
    × (index'.model ≡ 5)
    × (index'.base_data_accesses ≡ (new c).base_data_accesses)
    × (index'.false_positive_accesses ≡ (new c).false_positive_accesses)
fit-IsFitted_example = fit-IsFitted c sample (new c) (omega arith)

-- the index that `fit` returns for the range
abbrev index : Index c
index = (fit-IsFitted c sample (new c) (omega arith)).0

fitted : IsFitted c sample index
fitted = (fit-IsFitted c sample (new c) (omega arith)).2

model_lem : index.model ≡ 5
model_lem = (fit-IsFitted c sample (new c) (omega arith)).3

max_error_lem : index.max_error ≡ 1
unfolding error_loop sorted_pairs sort insert
max_error_lem =
    fitted.max_error_lem
    ∙ ap (λ m. error_loop (c.cdf.predict m) (sorted_pairs c sample) 5 0 0 0) model_lem

boundary_20 : IsLowerBound (keys_at c sample) 5 20 1
unfolding sorted_pairs sort insert
boundary_20 = (omega arith, below, above)
  where
    below : (i : ℕ) → i < 1 → keys_at c sample i < 20
    below zero h = omega arith
    below (suc i) h = absurd (omega arith)

    above : (i : ℕ) → 1 ≤ i → i < 5 → 20 ≤ keys_at c sample i
    above zero p q = absurd (omega arith)
    above (suc zero) p q = omega arith
    above (suc (suc zero)) p q = omega arith
    above (suc (suc (suc zero))) p q = omega arith
    above (suc (suc (suc (suc zero)))) p q = omega arith
    above (suc (suc (suc (suc (suc i))))) p q = absurd (omega arith)

occurrences-reached_example : ∥ (
    (n : ℕ) × (PermIter.deref c
        (PermIter.plus c (record { index = 1; perm_vector = index.perm_vector }) n)
      ≡ done 3)
    × ((j : ℕ)
        → j ≤ n
        → (d' : ℕ) × (PermIter.deref c
              (PermIter.plus c (record { index = 1; perm_vector = index.perm_vector }) j)
            ≡ done d')
          × (get_elem? sample d' ≡ some 20))) ∥₁
occurrences-reached_example = occurrences-reached c sample index fitted 3 20 1 refl boundary_20 few

max_error_least_example : (index.max_error ≤ 1) ↔ (
    (l : ℕ)
    → l < 5
    → IsFirst (c.cdf.predict index.model) (sorted_pairs c sample) l
    → error_of (c.cdf.predict index.model) (sorted_pairs c sample) l ≤ 1)
max_error_least_example = max_error_least c sample index fitted 1

-- every key of the range is between 5 and 90
between : (d k : ℕ) → get_elem? sample d ≡ some k → (5 < k) × (k < 90)
between zero k e = ground arith
between (suc zero) k e = ground arith
between (suc (suc zero)) k e = ground arith
between (suc (suc (suc zero))) k e = ground arith
between (suc (suc (suc (suc zero)))) k e = ground arith
between (suc (suc (suc (suc (suc d))))) k e = ground arith

lookup_missing_example :
    (n : Counters) × (lookup c false sample 5 index ≡ done (with_counters c index n, end c index))
lookup_missing_example =
    lookup_missing c sample index fitted few (near index.model) 5
      (λ d e. absurd (omega (arith, between d 5 e))) (omega (arith, max_error_lem))

lookup_above_faults_example :
    (lookup c false sample 90 index ≡ out_of_bounds)
    ↔ (read_base c index.perm_vector sample 90 index.perm_vector.size ≡ out_of_bounds)
lookup_above_faults_example =
    lookup_above_faults c sample index fitted few (near index.model) 90 (λ d k e. (between d k e).1)
      (omega (arith, model_lem)) (omega (arith, model_lem))

small_error : index.max_error ≤ 1
small_error = omega (arith, max_error_lem)

lookup_lowerbound_example :
    (n : Counters) × (lookup c true sample 20 index
      ≡ done (
        with_counters c index n,
        record {
          index = max (c.cdf.predict index.model 20 - index.max_error) 1;
          perm_vector = index.perm_vector;
        },
      ))
lookup_lowerbound_example =
    lookup_lowerbound c sample 20 index (keys_at c sample) (perm_at c sample) fitted.represents
      (omega (arith, small_error)) 1 (rw fitted.size_lem boundary_20)
      (omega (arith, fitted.size_lem))

-- what the lookup of 20 raises the counters to, with the run itself
run_20 :
    (n : Counters) × (lookup c false sample 20 index
      ≡ done (with_counters c index n, record { index = 1; perm_vector = index.perm_vector }))
run_20 = lookup_present c sample index fitted few (near index.model) 20 1 boundary_20 3 refl

lookup_sound_example :
    (record { index = 1; perm_vector = index.perm_vector } ≡ end c index)
    ⊎ (read_base c index.perm_vector sample 20 1 ≡ done 20)
lookup_sound_example =
    lookup_sound c sample 20 index (with_counters c index run_20.0)
      (record { index = 1; perm_vector = index.perm_vector }) run_20.1
