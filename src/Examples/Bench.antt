-- ===== src/Examples/Bench.antt =====
-- The results about the benchmarks, over an index on a small range.
use learned_secondary_index.Common.{
  length, ◌*◌, ◌/◌, ◌≤◌, ℕ, zero, suc, ◌<◌, ◌≡◌, List, [], ◌∷◌, false, arith,
}
use learned_secondary_index.Common.Run.{done}
use learned_secondary_index.ProbingSet.{exponential}
use learned_secondary_index.Lsi.Index.{Index, new, keys_of, sorted_pairs}
use learned_secondary_index.Lsi.Fit.{fit-IsFitted}
use learned_secondary_index.Lsi.Correct.{quarter}
use learned_secondary_index.Benchmarks.{equality_loop, equality_probe, lowerbound_lookup, finished}
use learned_secondary_index.Benchmarks.Equality.{ProbesIn, equality_loop_lem}
use learned_secondary_index.Benchmarks.Lsi.{lsi, lsi_equality, Serves, equality_probe-finished}
use learned_secondary_index.Benchmarks.Lowerbound.{lowerbound_lookup-finished}
use learned_secondary_index.Config.{Config}
use learned_secondary_index.Instances.{sample_config}
use learned_secondary_index.Instances.Trees.{lowest_draws}

abbrev c : Config
c = sample_config 8 false

abbrev sample : List ℕ
sample = 40 ∷ 20 ∷ 20 ∷ []

near : (m k : ℕ) → c.cdf.predict m k < quarter
near m k = omega arith

abbrev index : Index c
index = (fit-IsFitted c sample (new c) (omega arith)).0

serves : Serves c sample index
serves = ((fit-IsFitted c sample (new c) (omega arith)).2, omega arith, near index.model)

probes-in : ProbesIn sample (20 ∷ [])
probes-in zero x e = (1, ground arith)
probes-in (suc i) x e = absurd (ground arith)

equality_loop_lem_example : equality_loop (lsi c) sample (20 ∷ []) 3 0 0 index ≡ done 0
equality_loop_lem_example =
    equality_loop_lem (lsi c) (lsi_equality c) sample (20 ∷ []) 3 0 index serves (omega arith)
      probes-in

equality_probe-finished_example :
    equality_probe (lsi c) lowest_draws sample exponential 7 0 0 ≡ done finished
equality_probe-finished_example =
    equality_probe-finished c lowest_draws 40 (20 ∷ 20 ∷ []) exponential 7 0 0 (omega arith) near

below_size :
    (base : List ℕ) (m k : ℕ)
    → c.cdf.predict (c.cdf.train (keys_of (sorted_pairs c base)) (length base) m) k ≤ length base
below_size base m k = omega arith

lowerbound_lookup-finished_example :
    lowerbound_lookup (lsi c) lowest_draws (λ n. n * 9 / 10) sample 7 0 ≡ done finished
lowerbound_lookup-finished_example =
    lowerbound_lookup-finished c lowest_draws (λ n. n * 9 / 10) 40 (20 ∷ 20 ∷ []) 7 0 (omega arith)
      (omega arith) (λ m j k le. omega arith) below_size
