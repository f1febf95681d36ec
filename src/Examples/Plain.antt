-- ===== src/Examples/Plain.antt =====
-- An index without fingerprints, which searches by halving the interval, beside one with them.
use learned_secondary_index.Common.{
  ℕ, ◌+◌, ◌*◌, ◌≤◌, ◌<◌, ◌≡◌, ◌∙◌, ap, refl, List, [], ◌∷◌, length, get_elem?, some, false, arith,
}
use learned_secondary_index.Common.Run.{done}
use learned_secondary_index.Lsi.Index.{Index, new, fit, sorted_pairs, error_loop}
use learned_secondary_index.Lsi.PermIter.{PermIter}
use learned_secondary_index.Lsi.PermIter
use learned_secondary_index.Lsi.Lookup.{lookup}
use learned_secondary_index.Lsi.Fit.{IsFitted, perm_at, fit-IsFitted}
use learned_secondary_index.Lsi.Agreement.{fit-lookup_agree}
use learned_secondary_index.Lsi.Accesses.{
  FindsWithin, lookup_present-accesses, lookup_present-accesses_linear,
}
use learned_secondary_index.Lsi.Correct.{quarter}
use learned_secondary_index.Config.{Config}
use learned_secondary_index.Instances.{sample_config}
use learned_secondary_index.Instances.Sort.{sort, insert}

abbrev sample : List ℕ
sample = 40 ∷ 20 ∷ 70 ∷ 20 ∷ 10 ∷ []

abbrev plain : Config
plain = sample_config 0 false

abbrev fingerprints : Config
fingerprints = sample_config 8 false

few : length sample < quarter
few = omega arith

near : (m k : ℕ) → plain.cdf.predict m k < quarter
near m k = omega arith

fit-lookup_agree_example :
    (index after : Index plain) × (index' after' : Index fingerprints) × (it : PermIter plain)
    × (it' : PermIter fingerprints) × (d' : ℕ) × (fit plain sample (new plain) ≡ done index)
    × (fit fingerprints sample (new fingerprints) ≡ done index')
    × (lookup plain false sample 20 index ≡ done (after, it))
    × (lookup fingerprints false sample 20 index' ≡ done (after', it'))
    × (it.index ≡ it'.index)
    × (PermIter.deref plain it ≡ done d')
    × (PermIter.deref fingerprints it' ≡ done d')
fit-lookup_agree_example =
    fit-lookup_agree plain fingerprints sample (new plain) (new fingerprints) 3 20 refl refl few
      near near

abbrev index : Index plain
index = (fit-IsFitted plain sample (new plain) (omega arith)).0

fitted : IsFitted plain sample index
fitted = (fit-IsFitted plain sample (new plain) (omega arith)).2

max_error_lem : index.max_error ≡ 1
unfolding error_loop sorted_pairs sort insert
max_error_lem =
    fitted.max_error_lem
    ∙ ap (λ m. error_loop (plain.cdf.predict m) (sorted_pairs plain sample) 5 0 0 0)
        (fit-IsFitted plain sample (new plain) (omega arith)).3

counter_lem : index.base_data_accesses ≡ 0
unfolding new
counter_lem = (fit-IsFitted plain sample (new plain) (omega arith)).4

lookup_present-accesses_example :
    (index' : Index plain) × (it : PermIter plain) × (lookup plain false sample 20 index
      ≡ done (index', it))
    × (get_elem? {A = ℕ} sample (perm_at plain sample it.index) ≡ some 20)
    × (index'.base_data_accesses ≤ index.base_data_accesses + 2)
lookup_present-accesses_example =
    lookup_present-accesses plain sample index fitted few (near index.model) 3 20 refl 2 refl
      (omega (arith, max_error_lem)) (omega (arith, counter_lem))

-- the same with fingerprints
abbrev printed : Index fingerprints
printed = (fit-IsFitted fingerprints sample (new fingerprints) (omega arith)).0

fitted_printed : IsFitted fingerprints sample printed
fitted_printed = (fit-IsFitted fingerprints sample (new fingerprints) (omega arith)).2

printed_error : printed.max_error ≡ 1
unfolding error_loop sorted_pairs sort insert
printed_error =
    fitted_printed.max_error_lem
    ∙ ap (λ m. error_loop (plain.cdf.predict m) (sorted_pairs fingerprints sample) 5 0 0 0)
        (fit-IsFitted fingerprints sample (new fingerprints) (omega arith)).3

printed_counter : printed.base_data_accesses ≡ 0
unfolding new
printed_counter = (fit-IsFitted fingerprints sample (new fingerprints) (omega arith)).4

lookup_present-accesses_linear_example :
    FindsWithin fingerprints sample printed fitted_printed few
      (near printed.model)
      3
      20
      refl
      (printed.base_data_accesses + (2 * printed.max_error + 1))
lookup_present-accesses_linear_example =
    lookup_present-accesses_linear fingerprints sample printed fitted_printed few
      (near printed.model) 3 20 refl refl (omega (arith, printed_error, printed_counter))
