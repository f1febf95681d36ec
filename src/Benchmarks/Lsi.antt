-- ===== src/Benchmarks/Lsi.antt =====
-- The driver EqualityProbe (src/benchmarks.hpp) over the LearnedSecondaryIndex of include/lsi.hpp.
use learned_secondary_index.Common.{
  ℕ, zero, suc, ◌≤◌, ◌<◌, ◌≡◌, refl, not, List, [], ◌∷◌, length, get_elem?, some, false, arith,
}
use learned_secondary_index.Common.Run.{done}
use learned_secondary_index.Common.Sorting.{length-perm}
use learned_secondary_index.Random.{Random}
use learned_secondary_index.ProbingSet.{
  ProbingDistribution, uniform, exponential, limit, ProbesOf, generate_probing_set-ProbesOf,
}
use learned_secondary_index.Lsi.Index.{Index, new, construct}
use learned_secondary_index.Lsi.PermIter
use learned_secondary_index.Lsi.PermIter.{PermIter}
use learned_secondary_index.Lsi.Lookup.{Counters, lookup, with_counters, end}
use learned_secondary_index.Lsi.Fit.{
  IsFitted, fit-IsFitted, keys_at, perm_at, sorted_lem, length-sorted_pairs, sorted-in_base,
}
use learned_secondary_index.Lsi.Order.{lower_bound_of, key-at_boundary}
use learned_secondary_index.Lsi.Correct.{quarter, lookup_present}
use learned_secondary_index.Lsi.Occurrences.{deref_lem}
use learned_secondary_index.Benchmarks.{BenchIndex, finished, equality_run, equality_probe}
use learned_secondary_index.Benchmarks.Equality.{
  EqualityIndex, ProbesIn, mem-index, equality_loop_lem,
}
use learned_secondary_index.Config.{Config}
use mathlib.Core.List.{Perm}
use mathlib.Core.List.Perm

module _ (c : Config) where
  -- the index as the template parameter of the drivers
  abbrev pub lsi : BenchIndex
  lsi = record {
    Index = Index c;
    It = PermIter c;
    construct = construct c;
    lookup = λ lowerbound base key index. lookup c lowerbound base key index;
    is_end = λ index it. not (PermIter.iter_ne c it (end c index));
    deref = PermIter.deref c;
  }

  -- a fitted index whose range and predictions are far below 2 ^ 64
  abbrev pub Serves : List ℕ → Index c → Type 0
  Serves base index =
      IsFitted c base index
      × (length base < quarter)
      × ((k : ℕ) → c.cdf.predict index.model k < quarter)

  pub counted :
      (base : List ℕ) (index : Index c) (n : Counters)
      → IsFitted c base index
      → IsFitted c base (with_counters c index n)
  counted base index n f = record {
    size_lem = f.size_lem;
    represents = f.represents;
    max_error_lem = f.max_error_lem;
  }

  pub lookup-Serves :
      (base : List ℕ) (index : Index c) (key d : ℕ)
      → Serves base index
      → get_elem? base d ≡ some key
      → (index' : Index c) × (it : PermIter c) × (d' : ℕ) × (lookup c false base key index
          ≡ done (index', it))
        × Serves base index'
        × (PermIter.deref c it ≡ done d')
        × (get_elem? base d' ≡ some key)
  lookup-Serves base index key d (fitted, small, predictions) e =
      let (l, lb) =
        lower_bound_of (keys_at c base) key (length base)
          (λ i j p q. sorted_lem c base i j p (omega (arith, length-sorted_pairs c base))) in
      let (n, found) = lookup_present c base index fitted small predictions key l lb d e in
      let (inside, k) = key-at_boundary c base d e lb in
      (
        with_counters c index n,
        record { index = l; perm_vector = index.perm_vector },
        perm_at c base l,
        found,
        (counted base index n fitted, small, predictions),
        deref_lem c base index fitted l inside,
        rw k at (sorted-in_base c base l inside),
      )

  abbrev pub lsi_equality : EqualityIndex lsi
  lsi_equality = record { Serves = Serves; lookup-Serves = lookup-Serves }

  module _ (r : Random) where
    probes-in :
        (dataset shuffled probes : List ℕ)
        → Perm shuffled dataset
        → ProbesOf r dataset probes
        → ProbesIn shuffled probes
    probes-in dataset shuffled [] p w i x e = absurd (ground arith)
    probes-in dataset shuffled (y ∷ ys) p w zero x e =
        let (d, at) = mem-index y shuffled ((Perm.mem_iff p).1 w.0) in (d, ground (arith, at))
    probes-in dataset shuffled (y ∷ ys) p w (suc i) x e = probes-in dataset shuffled ys p w.1 i x e

    equality_run_lem :
        (dataset probes : List ℕ) (iterations : ℕ) (shuffled : List ℕ)
        → length shuffled < quarter
        → ((m : c.cdf.Model) (k : ℕ) → c.cdf.predict m k < quarter)
        → 0 < length probes
        → ProbesIn shuffled probes
        → equality_run lsi r dataset probes iterations shuffled ≡ done finished
    unfolding equality_run construct
    equality_run_lem dataset probes iterations shuffled small predictions some_probe within =
        let (index, built, fitted, _, _, _) = fit-IsFitted c shuffled (new c) (omega arith) in
        let ran =
          equality_loop_lem lsi lsi_equality shuffled probes iterations 0 index
            (fitted, small, predictions index.model) some_probe within in
        rw (built, ran) refl

    limit-lt_quarter : (distribution : ProbingDistribution) → limit distribution < quarter
    limit-lt_quarter uniform = omega arith
    limit-lt_quarter exponential = omega arith

    -- Over a dataset that is not empty, with either probing distribution and for any number of
    -- iterations, EqualityProbe on a LearnedSecondaryIndex finishes: it throws nothing, no read
    -- is out of bounds, and no lookup counts as an error. The dataset has at most 2 ^ 31 keys for
    -- the uniform and 2 ^ 53 for the exponential distribution, and every prediction is below 2 ^
    -- 62.
    pub equality_probe-finished :
        (k : ℕ) (ks : List ℕ) (distribution : ProbingDistribution) (iterations : ℕ)
        (device g : r.Rng)
        → length (k ∷ ks) ≤ limit distribution
        → ((m : c.cdf.Model) (x : ℕ) → c.cdf.predict m x < quarter)
        → equality_probe lsi r (k ∷ ks) distribution iterations device g ≡ done finished
    unfolding equality_probe
    equality_probe-finished k ks distribution iterations device g small predictions =
        let (probes, drawn, count, within) =
          generate_probing_set-ProbesOf r (k ∷ ks) distribution device small in
        let below = limit-lt_quarter distribution in
        let p = r.shuffle-perm (k ∷ ks) g in
        let size = length-perm p in
        rw drawn (
          equality_run_lem (k ∷ ks) probes iterations (r.shuffle (k ∷ ks) g).0 (omega arith)
            predictions (omega arith) (probes-in (k ∷ ks) (r.shuffle (k ∷ ks) g).0 probes p within))
