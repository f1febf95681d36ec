-- ===== src/Examples/Data.antt =====
-- The results about the datasets, the probing sets and the benchmarks, at small inputs.
use learned_secondary_index.Common.{
  ℕ, zero, suc, ◌-◌, ◌<◌, ◌≡◌, refl, List, [], ◌∷◌, length, get_elem?, some, true, arith,
}
use learned_secondary_index.Common.Word.{word}
use learned_secondary_index.Common.Run.{done}
use learned_secondary_index.Datasets.Parse.{Load, loaded, load, encode, encode_all, load-encode}
use learned_secondary_index.Datasets.Cache.{
  DatasetId, fb, Fetch, fetched, Store, load_cached, generate, keep, drop_sentinel, find, from_file,
  source, sample, from_source,
}
use learned_secondary_index.Datasets.Laws.{
  CleanCache, CleanFetch, load_cached_again, load_cached-clean,
}
use learned_secondary_index.Datasets.Shape.{FetchOf, IsCache, load_cached-IsDataset}
use learned_secondary_index.Instances.Keys.{sort_keys, sort_keys-perm, sort_keys-Ordered}
use learned_secondary_index.ProbingSet.{
  uniform, generate_probing_set, ProbesOf, generate_probing_set-ProbesOf,
}
use learned_secondary_index.Instances.Trees.{lowest_draws}
use mathlib.Core.List.Perm

few_keys : (j x : ℕ) → get_elem? (7 ∷ 9 ∷ 7 ∷ []) j ≡ some x → x < word
few_keys zero x e = ground arith
few_keys (suc zero) x e = ground arith
few_keys (suc (suc zero)) x e = ground arith
few_keys (suc (suc (suc j))) x e = ground arith

-- one key more than the header says, and three bytes that no key takes
load-encode_example :
    load
      (λ xs. xs)
      8
      true
      (some (encode 3 (encode_all (7 ∷ 9 ∷ 7 ∷ []) (encode 1 (0 ∷ 0 ∷ 0 ∷ [])))))
    ≡ loaded (7 ∷ 9 ∷ 7 ∷ 0 ∷ [])
load-encode_example =
    load-encode (λ xs. xs) (7 ∷ 9 ∷ 7 ∷ []) (encode 1 (0 ∷ 0 ∷ 0 ∷ [])) (omega arith) few_keys

-- files that hold the largest key
abbrev files : DatasetId → Load
files id = loaded (5 ∷ (word - 1) ∷ [])

abbrev start : Store lowest_draws (λ xs. xs) files
start = record { datasets = []; sources = λ id. []; rng = 0 }

abbrev first_run : Fetch × Store lowest_draws (λ xs. xs) files
first_run = load_cached lowest_draws (λ xs. xs) files 0 fb 2 start

load_cached_again_example :
    load_cached lowest_draws (λ xs. xs) files 0 fb 2 first_run.1
    ≡ (fetched (5 ∷ (word - 2) ∷ []), first_run.1)
unfolding load_cached generate keep drop_sentinel find from_file source sample from_source
load_cached_again_example =
    load_cached_again lowest_draws (λ xs. xs) files 0 0 fb 2 start first_run.1 5 ((word - 2) ∷ [])
      refl

load_cached-clean_example :
    CleanFetch lowest_draws (λ xs. xs) files first_run.0
    × CleanCache lowest_draws (λ xs. xs) files first_run.1.datasets
load_cached-clean_example =
    load_cached-clean lowest_draws (λ xs. xs) files (λ l. Perm.rfl) 0 fb 2 start first_run.1
      first_run.0 tt refl

abbrev sorted_start : Store lowest_draws sort_keys files
sorted_start = record { datasets = []; sources = λ id. []; rng = 0 }

abbrev sorted_run : Fetch × Store lowest_draws sort_keys files
sorted_run = load_cached lowest_draws sort_keys files 0 fb 2 sorted_start

load_cached-IsDataset_example : FetchOf 2 sorted_run.0 × IsCache sorted_run.1.datasets
load_cached-IsDataset_example =
    load_cached-IsDataset lowest_draws sort_keys files sort_keys-perm sort_keys-Ordered 0 fb 2
      sorted_start sorted_run.1 sorted_run.0 tt refl

generate_probing_set-ProbesOf_example :
    (probes : List ℕ) × (generate_probing_set lowest_draws (3 ∷ 1 ∷ []) uniform 0 ≡ done probes)
    × (length probes ≡ 2)
    × ProbesOf lowest_draws (3 ∷ 1 ∷ []) probes
generate_probing_set-ProbesOf_example =
    generate_probing_set-ProbesOf lowest_draws (3 ∷ 1 ∷ []) uniform 0 (omega arith)
