-- ===== src/Lsi/Agreement.antt =====
-- Two instances of the index (include/lsi.hpp) over the same range, which differ in their template
-- parameters.
use learned_secondary_index.Common.{
  ℕ, ◌<◌, ◌≡◌, sym, ap, ◌∙◌, some, List, length, get_elem?, false, arith,
}
use learned_secondary_index.Common.Run.{done}
use learned_secondary_index.Common.Sorting.{enumerate, pair_at}
use learned_secondary_index.Lsi.Index.{Index, fit, sorted_pairs}
use learned_secondary_index.Lsi.PermIter
use learned_secondary_index.Lsi.PermIter.{PermIter}
use learned_secondary_index.Lsi.Lookup.{lookup}
use learned_secondary_index.Lsi.View.{IsLowerBound}
use learned_secondary_index.Lsi.Fit.{keys_at, perm_at, sorted_lem, length-sorted_pairs}
use learned_secondary_index.Lsi.Order.{lower_bound_of}
use learned_secondary_index.Lsi.Contract.{fit-lookup_at}
use learned_secondary_index.Config.{Config}
use learned_secondary_index.Lsi.Correct.{quarter}

same_pairs :
    (c c' : Config) (base : List ℕ)
    → c.std_sort ≡ c'.std_sort
    → sorted_pairs c base ≡ sorted_pairs c' base
unfolding sorted_pairs
same_pairs c c' base same = ap (λ s. s.sort (enumerate 0 base)) same

-- Two instances of the index with the same sort, whatever their models, hashes, packings,
-- fingerprint sizes and searches and whatever they held before, answer an equality lookup of a
-- key of the range with iterators at the same position and to the same displacement. The range
-- has fewer than 2 ^ 62 keys, and the predictions of both models are below 2 ^ 62.
pub fit-lookup_agree :
    (c c' : Config) (base : List ℕ) (previous : Index c) (previous' : Index c') (d key : ℕ)
    → c.std_sort ≡ c'.std_sort
    → get_elem? base d ≡ some key
    → length base < quarter
    → ((m : c.cdf.Model) (k : ℕ) → c.cdf.predict m k < quarter)
    → ((m : c'.cdf.Model) (k : ℕ) → c'.cdf.predict m k < quarter)
    → (index after : Index c) × (index' after' : Index c') × (it : PermIter c) × (it' : PermIter c')
      × (d' : ℕ) × (fit c base previous ≡ done index)
      × (fit c' base previous' ≡ done index')
      × (lookup c false base key index ≡ done (after, it))
      × (lookup c' false base key index' ≡ done (after', it'))
      × (it.index ≡ it'.index)
      × (PermIter.deref c it ≡ done d')
      × (PermIter.deref c' it' ≡ done d')
fit-lookup_agree c c' base previous previous' d key same e small near near' =
    let (l, lb) =
      lower_bound_of (keys_at c base) key (length base)
        (λ i j p q. sorted_lem c base i j p (omega (arith, length-sorted_pairs c base))) in
    let pairs = same_pairs c c' base same in
    let lb' : IsLowerBound (keys_at c' base) (length base) key l = rw pairs at lb in
    let (index, after, it, built, found, at, there) =
      fit-lookup_at c base previous d key l e small near lb in
    let (index', after', it', built', found', at', there') =
      fit-lookup_at c' base previous' d key l e small near' lb' in
    (
      index,
      after,
      index',
      after',
      it,
      it',
      perm_at c base l,
      built,
      built',
      found,
      found',
      at ∙ sym at',
      there,
      there' ∙ ap (λ cells. done (pair_at cells l).1) (sym pairs),
    )
