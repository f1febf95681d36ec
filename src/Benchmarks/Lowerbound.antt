-- ===== src/Benchmarks/Lowerbound.antt =====
-- The driver LowerboundLookup (src/benchmarks.hpp) over the LearnedSecondaryIndex of include/lsi.hpp.
use learned_secondary_index.Common.{
  ℕ, zero, suc, ◌+◌, ◌==◌, ◌-◌, ◌≤◌, ◌<◌, ◌≡◌, refl, List, [], ◌∷◌, length, get_elem?, get_or, take,
  drop, some, false, ltb, dec_lt, arith,
}
use learned_secondary_index.Common.Run.{done}
use learned_secondary_index.Common.Sorting.{length-perm, get_elem?-get_or}
use learned_secondary_index.Random.{Random}
use learned_secondary_index.PermVector.{perm_eq, perm_ne}
use learned_secondary_index.Lsi.Index.{Index, new, construct, keys_of, sorted_pairs}
use learned_secondary_index.Lsi.PermIter
use learned_secondary_index.Lsi.PermIter.{PermIter}
use learned_secondary_index.Lsi.Lookup.{Counters, with_counters, end}
use learned_secondary_index.Lsi.View.{IsLowerBound}
use learned_secondary_index.Lsi.Fit.{
  IsFitted, fit-IsFitted, keys_at, sorted_lem, length-sorted_pairs, sorted-in_base,
}
use learned_secondary_index.Lsi.Order.{lower_bound_of}
use learned_secondary_index.Lsi.Correct.{quarter, lookup_lowerbound_lem}
use learned_secondary_index.Lsi.Occurrences.{deref_lem}
use learned_secondary_index.Benchmarks.{finished, is_error, lowerbound_loop, lowerbound_lookup}
use learned_secondary_index.Benchmarks.Equality.{wrap_lem}
use learned_secondary_index.Benchmarks.Lsi.{lsi, counted}
use learned_secondary_index.Config.{Config}

get_elem?-take :
    (n : ℕ) (xs : List ℕ) (i x : ℕ) → get_elem? (take n xs) i ≡ some x → get_elem? xs i ≡ some x
get_elem?-take zero xs i x e = absurd (ground arith)
get_elem?-take (suc n) [] i x e = absurd (ground arith)
get_elem?-take (suc n) (y ∷ ys) zero x e = e
get_elem?-take (suc n) (y ∷ ys) (suc i) x e = get_elem?-take n ys i x e

length-take_le : (n : ℕ) (xs : List ℕ) → length (take n xs) ≤ length xs
length-take_le zero xs = omega arith
length-take_le (suc n) [] = omega arith
length-take_le (suc n) (y ∷ ys) = omega (arith, length-take_le n ys)

length-drop : (n : ℕ) (xs : List ℕ) → length (drop n xs) ≡ length xs - n
length-drop zero xs = omega arith
length-drop (suc n) [] = omega arith
length-drop (suc n) (y ∷ ys) = omega (arith, length-drop n ys)

module _ (c : Config) (dataset : List ℕ) (insert_end : ℕ) where
  abbrev base : List ℕ
  base = take insert_end dataset

  -- an index that was fitted to the first part of the dataset, with a model that lower bound
  -- lookups can rely on
  abbrev ServesBounds : Index c → Type 0
  ServesBounds index =
      IsFitted c base index
      × (length base < quarter)
      × ((j k : ℕ) → j ≤ k → c.cdf.predict index.model j ≤ c.cdf.predict index.model k)
      × ((k : ℕ) → c.cdf.predict index.model k ≤ length base)

  -- an iterator at the boundary of a key is no error
  no_error :
      (probes : List ℕ) (index : Index c) (n : Counters) (key l : ℕ)
      → IsFitted c base index
      → IsLowerBound (keys_at c base) (length base) key l
      → is_error
          (lsi c)
          dataset
          probes
          (with_counters c index n)
          (record { index = l; perm_vector = index.perm_vector })
          key
        ≡ done false
  unfolding is_error PermIter.iter_ne end perm_ne perm_eq
  no_error probes index n key l fitted lb = elim (dec_lt l (length base)) [
    | no at_end ↦
        let size : l ≡ index.perm_vector.size = omega (arith, fitted.size_lem) in
        rw (size, c.packing.bytes_eq_refl index.perm_vector.bytes) (ground arith)
    | yes inside ↦
        let differs : (l == index.perm_vector.size) ≡ false = ground (arith, fitted.size_lem) in
        let here = get_elem?-take insert_end dataset _ _ (sorted-in_base c base l inside) in
        let large : ltb (keys_at c base l) key ≡ false = ground (arith, lb.2 l) in
        rw (differs, deref_lem c base index fitted l inside, here, large) refl
  ]

  lowerbound_loop_lem :
      (probes : List ℕ)
      → 0 < length probes
      → (iterations i : ℕ) (index : Index c) → ServesBounds index
      → lowerbound_loop (lsi c) dataset probes insert_end iterations i 0 index ≡ done 0
  unfolding lowerbound_loop
  lowerbound_loop_lem probes some_probe zero i index serves = refl
  lowerbound_loop_lem probes some_probe (suc iterations) i index
        (fitted, small, monotone, in_range) =
      let (j, wrapped, inside) = wrap_lem (suc i) i (length probes) some_probe (omega arith) in
      let key = get_or probes j 0 in
      let probe = get_elem?-get_or probes j 0 inside in
      let (l, lb) =
        lower_bound_of (keys_at c base) key (length base)
          (λ i j p q. sorted_lem c base i j p (omega (arith, length-sorted_pairs c base))) in
      let (n, found) =
        lookup_lowerbound_lem c base index fitted small (λ k. omega (arith, in_range k)) key l lb
          monotone in_range in
      let right = no_error probes index n key l fitted lb in
      let on =
        lowerbound_loop_lem probes some_probe iterations (j + 1) (with_counters c index n)
          (counted c base index n fitted, small, monotone, in_range) in
      rw (wrapped, probe, found, right, on)

module _ (c : Config) (r : Random) (insert_end : ℕ → ℕ) where
  -- Over a dataset that is not empty, and for any number of iterations, LowerboundLookup on a
  -- LearnedSecondaryIndex finishes: it throws nothing, no read is out of bounds, and no lookup
  -- counts as an error. The index is built on a first part of the dataset that is not all of it,
  -- the dataset has fewer than 2 ^ 62 keys, every model is monotone, and a model trained on a
  -- range predicts at most the size of that range.
  pub lowerbound_lookup-finished :
      (k : ℕ) (ks : List ℕ) (iterations : ℕ) (g : r.Rng)
      → length (k ∷ ks) < quarter
      → insert_end (length (k ∷ ks)) < length (k ∷ ks)
      → ((m : c.cdf.Model) (j k : ℕ) → j ≤ k → c.cdf.predict m j ≤ c.cdf.predict m k)
      → ((base : List ℕ) (m : c.cdf.Model) (k : ℕ)
          → c.cdf.predict (c.cdf.train (keys_of (sorted_pairs c base)) (length base) m) k
            ≤ length base)
      → lowerbound_lookup (lsi c) r insert_end (k ∷ ks) iterations g ≡ done finished
  unfolding lowerbound_lookup construct
  lowerbound_lookup-finished k ks iterations g small some_probe monotone in_range =
      let dataset = (r.shuffle (k ∷ ks) g).0 in
      let size = length-perm (r.shuffle-perm (k ∷ ks) g) in
      let split = insert_end (length dataset) in
      let base = take split dataset in
      let probes = (r.shuffle (drop split dataset) (r.shuffle (k ∷ ks) g).1).0 in
      let rest = length-perm (r.shuffle-perm (drop split dataset) (r.shuffle (k ∷ ks) g).1) in
      let fewer = length-take_le split dataset in
      let below : split < length dataset = rw size some_probe in
      let (index, built, fitted, trained, _, _) = fit-IsFitted c base (new c) (omega arith) in
      let ran =
        lowerbound_loop_lem c dataset split probes (omega (arith, rest, length-drop split dataset))
          iterations 0 index
          (
            fitted,
            omega arith,
            monotone index.model,
            λ x. rw trained (in_range base (new c).model x),
          ) in
      rw (built, ran) refl
