-- ===== src/Examples/Lsi.antt =====
-- The index over a small range with a duplicate key.
use learned_secondary_index.Common.{ℕ, ◌≡◌, refl, List, [], ◌∷◌, Bool, true, false}
use learned_secondary_index.Common.Word.{add64, sub64, midpoint}
use learned_secondary_index.Common.Run.{Run, done, out_of_bounds, ◌>>=◌}
use learned_secondary_index.PermVector
use learned_secondary_index.PermVector.{build, deserialize}
use learned_secondary_index.Fingerprinter
use learned_secondary_index.Lsi.PairIter
use learned_secondary_index.Lsi.PermIter
use learned_secondary_index.Lsi.Index.{construct, error_loop}
use learned_secondary_index.Lsi.Lookup.{
  lookup, linear_search, binary_search, skip_smaller, read_base, passes_over, settle,
}
use learned_secondary_index.Config.{Config}
use learned_secondary_index.Instances.{sample_config}
use learned_secondary_index.Instances.Words.{words_eq}
use learned_secondary_index.Instances.Sort.{sort}

abbrev sample : List ℕ
sample = 40 ∷ 20 ∷ 70 ∷ 20 ∷ 10 ∷ []

program : Unit {0}
unfolding add64 sub64 midpoint build deserialize PermVector.test PermVector.perm_ne PermVector.new
    Fingerprinter.test PairIter.deref PairIter.key PairIter.next PairIter.before PairIter.distance
    PermIter.value PermIter.deref PermIter.before PermIter.iter_ne construct error_loop lookup
    linear_search binary_search skip_smaller read_base passes_over settle words_eq sort
program = tt

-- the index into the permutation vector that a lookup returns
position : Config → Bool → ℕ → Run ℕ
unfolding construct lookup
position c lowerbound key = do
  index ← construct c sample
  (index', it) ← lookup c lowerbound sample key index
  done it.index

binary_finds : position (sample_config 0 false) false 20 ≡ done 1
unfolding program position
binary_finds = refl

linear_finds : position (sample_config 0 true) false 20 ≡ done 1
unfolding program position
linear_finds = refl

fingerprint_finds : position (sample_config 8 false) false 70 ≡ done 4
unfolding program position
fingerprint_finds = refl

lower_bound_between : position (sample_config 0 false) true 30 ≡ done 3
unfolding program position
lower_bound_between = refl

lower_bound_above : position (sample_config 4 false) true 90 ≡ done 5
unfolding program position
lower_bound_above = refl

-- with fingerprints, an equality lookup above the last key reads a fingerprint as a displacement
past_the_end : position (sample_config 8 false) false 90 ≡ out_of_bounds
unfolding program position
past_the_end = refl
