-- ===== src/Lsi/Fit.antt =====
-- What `fit` (include/lsi.hpp) builds: the view of the range on which `lookup` relies, and the error
-- bound of the model.
pub mod Error
pub mod MaxError
use learned_secondary_index.Common.{
  ℕ, zero, suc, ◌+◌, ◌-◌, ◌/◌, ◌≤◌, ◌<◌, ◌≡◌, ◌≢◌, refl, sym, ap, ◌∙◌, some, none, List, [], ◌∷◌,
  length, get_elem?, Bool, true, false, arith,
}
use learned_secondary_index.Common.Word.{word}
use learned_secondary_index.Common.Run.{Run, done, ◌>>=◌}
use learned_secondary_index.Common.Sorting.{
  Pair, key_at, pair_at, enumerate, length-enumerate, mem-enumerate, length-perm, mem-get_or,
  get_elem?-get_or, get_elem?-lt,
}
use learned_secondary_index.Bitpacking.{AllWords}
use learned_secondary_index.PermVector.{PermVector, build}
use learned_secondary_index.PermVector.Build.{Entry, Walk, offsets_of, build_lem}
use learned_secondary_index.Lsi.PairIter.{
  PairIter, pair_range, iter_begin, iter_end, deref, next, before, distance,
}
use learned_secondary_index.Lsi.PairIter
use learned_secondary_index.Lsi.Index.{Index, sorted_pairs, fit, keys_of, error_loop, error_at}
use learned_secondary_index.Lsi.View.{Represents}
use learned_secondary_index.Config.{Config}
use mathlib.Core.List.Perm
use native.Mathlib.Nat.{add-zero, zero-add}

-- The pairs as `build` sees them: `*it` is the displacement, `it.key()` the key.
abbrev swapped : List Pair → List Entry
swapped [] = []
swapped ((k, d) ∷ l) = (d, k) ∷ swapped l

length-swapped : (l : List Pair) → length (swapped l) ≡ length l
length-swapped [] = refl
length-swapped ((k, d) ∷ l) = ap suc (length-swapped l)

get_elem?-swapped :
    (l : List Pair) (i k d : ℕ)
    → get_elem? l i ≡ some (k, d)
    → get_elem? (swapped l) i ≡ some (d, k)
get_elem?-swapped [] i k d e = ground arith
get_elem?-swapped ((k', d') ∷ l) zero k d e = ground arith
get_elem?-swapped ((k', d') ∷ l) (suc i) k d e = get_elem?-swapped l i k d e

-- the iterator visits the pairs from its position on
swapped-Walk :
    (cells rest : List Pair) (p : ℕ)
    → p + length rest ≡ length cells
    → ((j : ℕ) → get_elem? cells (p + j) ≡ get_elem? rest j)
    → Walk
        (pair_range false)
        (iter_end cells)
        (swapped rest)
        (record { cells = cells; iter = p; skip = 0 })
unfolding deref next before
swapped-Walk cells [] p e at = ground arith
swapped-Walk cells ((k, d) ∷ rest) p e at =
    let here : get_elem? cells p ≡ some (k, d) = rw add-zero at (at 0) in
    (
      ground arith,
      rw here,
      rw here,
      swapped-Walk cells rest (p + 1) (omega arith)
          (λ j. let same : p + 1 + j ≡ p + suc j = omega arith in rw same (at (suc j))),
    )

offsets_of-swapped :
    (l : List Pair) (i x : ℕ)
    → get_elem? (offsets_of (swapped l)) i ≡ some x
    → (i < length l) × ((pair_at l i).1 ≡ x)
offsets_of-swapped [] i x e = ground arith
offsets_of-swapped ((k, d) ∷ l) zero x e = (omega arith, ground arith)
offsets_of-swapped ((k, d) ∷ l) (suc i) x e =
    let (h, same) = offsets_of-swapped l i x e in (omega arith, same)

module _ (c : Config) (base : List ℕ) where
  -- the keys in ascending order, and their displacements
  abbrev pub keys_at : ℕ → ℕ
  keys_at i = key_at (sorted_pairs c base) i

  abbrev pub perm_at : ℕ → ℕ
  perm_at i = (pair_at (sorted_pairs c base) i).1

  pub length-sorted_pairs : length (sorted_pairs c base) ≡ length base
  unfolding sorted_pairs
  length-sorted_pairs =
      length-perm (c.std_sort.sort-perm (enumerate 0 base)) ∙ length-enumerate 0 base

  pub sorted_lem : (i j : ℕ) → i ≤ j → j < length (sorted_pairs c base) → keys_at i ≤ keys_at j
  unfolding sorted_pairs
  sorted_lem = c.std_sort.sort-IsSorted (enumerate 0 base)

  -- a position of the sorted vector names the key that stands at its displacement
  pub sorted-in_base : (i : ℕ) → i < length base → get_elem? base (perm_at i) ≡ some (keys_at i)
  unfolding sorted_pairs
  sorted-in_base i h = mem-enumerate base (pair_at (sorted_pairs c base) i) (
      (Perm.mem_iff (c.std_sort.sort-perm (enumerate 0 base))).0
        (mem-get_or (sorted_pairs c base) i (0, 0) (omega (arith, length-sorted_pairs))))

  pub perm_at-lt : (i : ℕ) → i < length base → perm_at i < length base
  perm_at-lt i h = get_elem?-lt base (perm_at i) (sorted-in_base i h)

  entry_lem :
      (i : ℕ)
      → i < length base
      → get_elem? (swapped (sorted_pairs c base)) i ≡ some (perm_at i, keys_at i)
  entry_lem i h =
      get_elem?-swapped (sorted_pairs c base) i (keys_at i) (perm_at i)
        (get_elem?-get_or (sorted_pairs c base) i (0, 0) (omega (arith, length-sorted_pairs)))

  offsets-AllWords : length base < word → AllWords (offsets_of (swapped (sorted_pairs c base)))
  offsets-AllWords small i x e =
      let (h, same) = offsets_of-swapped (sorted_pairs c base) i x e in
      omega (arith, perm_at-lt i (omega (arith, length-sorted_pairs)))

  distance_lem :
      (cells : List Pair) → distance (iter_end cells) (iter_begin cells) ≡ length (swapped cells)
  unfolding distance
  distance_lem cells = omega (arith, length-swapped cells)

  built_lem :
      length base < word
      → (v : PermVector c.packing) × (build c.packing c.hasher c.fingerprint_size
            (pair_range false)
            (iter_begin (sorted_pairs c base))
            (iter_end (sorted_pairs c base))
          ≡ done v)
        × (v.size ≡ length base)
        × Represents c v base keys_at perm_at
  built_lem small =
      let cells = sorted_pairs c base in
      let (v, built, size, held) =
        build_lem c.packing c.hasher c.fingerprint_size (pair_range false) (iter_begin cells)
          (iter_end cells) (swapped cells)
          (swapped-Walk cells cells 0 (omega arith) (λ j. rw zero-add)) (distance_lem cells)
          (offsets-AllWords small) in
      let count : v.size ≡ length base = size ∙ length-swapped cells ∙ length-sorted_pairs in
      (
        v,
        built,
        count,
        record {
          small = omega arith;
          entry = λ i h. held i (perm_at i) (keys_at i) (entry_lem i (omega arith));
          in_base = λ i h. sorted-in_base i (omega arith);
          sorted = λ i j p q. sorted_lem i j p (omega (arith, length-sorted_pairs));
        },
      )

  -- What `fit` establishes.
  pub record IsFitted (index : Index c) : Type 0 where
    pub size_lem : index.perm_vector.size ≡ length base
    pub represents : Represents c index.perm_vector base keys_at perm_at
    pub max_error_lem :
        index.max_error
        ≡ error_loop (c.cdf.predict index.model) (sorted_pairs c base) (length base) 0 0 0

  -- `fit` of a range with fewer than 2 ^ 64 keys returns an index whose vector lists the range in
  -- key order, each position with its displacement and fingerprint, whose model is trained on the
  -- sorted keys, and whose `max_error` starts from zero, whatever the index held before; the
  -- counters stay.
  pub fit-IsFitted :
      (index : Index c)
      → length base < word
      → (index' : Index c) × (fit c base index ≡ done index')
        × IsFitted index'
        × (index'.model ≡ c.cdf.train (keys_of (sorted_pairs c base)) (length base) index.model)
        × (index'.base_data_accesses ≡ index.base_data_accesses)
        × (index'.false_positive_accesses ≡ index.false_positive_accesses)
  unfolding fit
  fit-IsFitted index small =
      let (v, built, size, held) = built_lem small in
      let cells = sorted_pairs c base in
      let model = c.cdf.train (keys_of cells) (length base) index.model in
      (
        record index {
          perm_vector = v;
          model = model;
          max_error = error_loop (c.cdf.predict model) cells (length base) 0 0 0;
        },
        rw (built, length-sorted_pairs),
        record { size_lem = size; represents = held; max_error_lem = refl },
        refl,
        refl,
        refl,
      )
