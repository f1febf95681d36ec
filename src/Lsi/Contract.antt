-- ===== src/Lsi/Contract.antt =====
-- `fit` followed by `lookup` (include/lsi.hpp), for either kind of lookup.
use learned_secondary_index.Common.{
  ℕ, ◌≤◌, ◌<◌, ◌≡◌, sym, ap, ◌∙◌, some, List, length, get_elem?, true, false, arith, refl,
}
use learned_secondary_index.Common.Run.{done}
use learned_secondary_index.Lsi.Index.{Index, sorted_pairs, fit, keys_of}
use learned_secondary_index.Lsi.PermIter
use learned_secondary_index.Lsi.PermIter.{PermIter}
use learned_secondary_index.Lsi.Lookup.{lookup, with_counters, end}
use learned_secondary_index.Lsi.View.{IsLowerBound}
use learned_secondary_index.Lsi.Fit.{
  keys_at, perm_at, fit-IsFitted, sorted_lem, length-sorted_pairs, sorted-in_base,
}
use learned_secondary_index.Lsi.Order.{lower_bound_of, key-at_boundary}
use learned_secondary_index.Config.{Config}
use learned_secondary_index.Lsi.Correct.{quarter, lookup_present, lookup_lowerbound_lem}
use learned_secondary_index.Lsi.Occurrences.{deref_lem}

end_lem :
    (c : Config) (index : Index c) {l : ℕ}
    → l ≡ index.perm_vector.size
    → record { index = l; perm_vector = index.perm_vector } ≡ end c index
unfolding end
end_lem c index e = λ i. record { index = e i; perm_vector = index.perm_vector }

-- what a lookup of a key of the range returns, at a boundary that is given
pub fit-lookup_at :
    (c : Config) (base : List ℕ) (previous : Index c) (d key l : ℕ)
    → get_elem? base d ≡ some key
    → length base < quarter
    → ((m : c.cdf.Model) (k : ℕ) → c.cdf.predict m k < quarter)
    → IsLowerBound (keys_at c base) (length base) key l
    → (index index' : Index c) × (it : PermIter c) × (fit c base previous ≡ done index)
      × (lookup c false base key index ≡ done (index', it))
      × (it.index ≡ l)
      × (PermIter.deref c it ≡ done (perm_at c base l))
fit-lookup_at c base previous d key l e small predictions lb =
    let (index, built, fitted, _, _, _) = fit-IsFitted c base previous (omega arith) in
    let (n, found) =
      lookup_present c base index fitted small (predictions index.model) key l lb d e in
    let (inside, k) = key-at_boundary c base d e lb in
    (
      index,
      with_counters c index n,
      record { index = l; perm_vector = index.perm_vector },
      built,
      found,
      refl,
      deref_lem c base index fitted l inside,
    )

-- After `fit` on a range, which always returns, an equality lookup of a key that the range holds
-- returns an iterator to the first position of the key in key order, and the displacement stored
-- there holds the key in the range. The range has fewer than 2 ^ 62 keys and every prediction is
-- below 2 ^ 62; the model need not be monotone or near.
pub fit-lookup :
    (c : Config) (base : List ℕ) (previous : Index c) (d key : ℕ)
    → get_elem? base d ≡ some key
    → length base < quarter
    → ((m : c.cdf.Model) (k : ℕ) → c.cdf.predict m k < quarter)
    → (index index' : Index c) × (it : PermIter c) × (d' : ℕ) × (fit c base previous ≡ done index)
      × (lookup c false base key index ≡ done (index', it))
      × (PermIter.deref c it ≡ done d')
      × (get_elem? base d' ≡ some key)
      × IsLowerBound (keys_at c base) (length base) key it.index
fit-lookup c base previous d key e small predictions =
    let (l, lb) =
      lower_bound_of (keys_at c base) key (length base)
        (λ i j p q. sorted_lem c base i j p (omega (arith, length-sorted_pairs c base))) in
    let (index, after, it, built, found, at, there) =
      fit-lookup_at c base previous d key l e small predictions lb in
    let (inside, k) = key-at_boundary c base d e lb in
    (
      index,
      after,
      it,
      perm_at c base l,
      built,
      found,
      there,
      sorted-in_base c base l inside ∙ ap some k,
      rw at lb,
    )

-- After `fit` on a range, a lower bound lookup of any key returns an iterator to the first
-- position in key order whose key is not smaller, and `end()` if there is none. The range has
-- fewer than 2 ^ 62 keys, every model is monotone, and a model trained on the range predicts at
-- most the size of the range.
pub fit-lookup_lowerbound :
    (c : Config) (base : List ℕ) (previous : Index c) (key : ℕ)
    → length base < quarter
    → ((m : c.cdf.Model) (j k : ℕ) → j ≤ k → c.cdf.predict m j ≤ c.cdf.predict m k)
    → ((m : c.cdf.Model) (k : ℕ)
        → c.cdf.predict (c.cdf.train (keys_of (sorted_pairs c base)) (length base) m) k
          ≤ length base)
    → (index index' : Index c) × (it : PermIter c) × (fit c base previous ≡ done index)
      × (lookup c true base key index ≡ done (index', it))
      × IsLowerBound (keys_at c base) (length base) key it.index
      × ((it.index ≡ length base) → it ≡ end c index)
fit-lookup_lowerbound c base previous key small monotone in_range =
    let (index, built, fitted, trained, _, _) = fit-IsFitted c base previous (omega arith) in
    let (l, lb) =
      lower_bound_of (keys_at c base) key (length base)
        (λ i j p q. sorted_lem c base i j p (omega (arith, length-sorted_pairs c base))) in
    let near : (k : ℕ) → c.cdf.predict index.model k ≤ length base =
      λ k. rw trained (in_range previous.model k) in
    let (n, found) =
      lookup_lowerbound_lem c base index fitted small (λ k. omega (arith, near k)) key l lb
        (monotone index.model) near in
    (
      index,
      with_counters c index n,
      record { index = l; perm_vector = index.perm_vector },
      built,
      found,
      lb,
      λ e. end_lem c index (e ∙ sym fitted.size_lem),
    )
