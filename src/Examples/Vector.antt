-- ===== src/Examples/Vector.antt =====
-- The results about the permutation vector, for two entries with fingerprints of 8 bits.
use learned_secondary_index.Common.{
  ℕ, zero, suc, ◌≡◌, refl, List, [], ◌∷◌, get_elem?, some, false, arith,
}
use learned_secondary_index.Common.Run.{done}
use learned_secondary_index.Common.Sorting.{Pair}
use learned_secondary_index.Bitpacking.{AllWords}
use learned_secondary_index.Fingerprinter.{fingerprint}
use learned_secondary_index.PermVector.{PermVector, build, deserialize}
use learned_secondary_index.PermVector.Build.{Entry, Walk, offsets_of, build_lem}
use learned_secondary_index.PermVector.Iterator.{walk, begin, end, values_of, walk_lem}
use learned_secondary_index.Lsi.PairIter.{pair_range, iter_begin, iter_end}
use learned_secondary_index.Lsi.PairIter
use learned_secondary_index.Instances.{plain_hasher}
use learned_secondary_index.Instances.Words.{word_packing}

abbrev cells : List Pair
cells = (10, 4) ∷ (20, 1) ∷ []

abbrev entries : List Entry
entries = (4, 10) ∷ (1, 20) ∷ []

entries-Walk : Walk (pair_range false) (iter_end cells) entries (iter_begin cells)
unfolding PairIter.deref PairIter.displacement PairIter.key PairIter.next PairIter.gap
    PairIter.before
entries-Walk = (refl, refl, refl, (refl, refl, refl, refl))

offsets-AllWords : AllWords (offsets_of entries)
offsets-AllWords zero x e = ground arith
offsets-AllWords (suc zero) x e = ground arith
offsets-AllWords (suc (suc i)) x e = ground arith

build_lem_example :
    (v : PermVector word_packing) × (build word_packing plain_hasher 8
        (pair_range false)
        (iter_begin cells)
        (iter_end cells)
      ≡ done v)
    × (v.size ≡ 2)
    × ((i o k : ℕ)
        → get_elem? entries i ≡ some (o, k)
        → deserialize word_packing plain_hasher 8 v i
          ≡ done (record { index = o; fingerprint_bits = fingerprint plain_hasher 8 k }))
unfolding PairIter.distance PairIter.gap
build_lem_example =
    build_lem word_packing plain_hasher 8 (pair_range false) (iter_begin cells) (iter_end cells)
      entries entries-Walk refl offsets-AllWords

-- the vector of the two entries
two_entries :
    (v : PermVector word_packing) × (build word_packing plain_hasher 8
        (pair_range false)
        (iter_begin cells)
        (iter_end cells)
      ≡ done v)
    × (v.size ≡ 2)
    × ((i o k : ℕ)
        → get_elem? entries i ≡ some (o, k)
        → deserialize word_packing plain_hasher 8 v i
          ≡ done (record { index = o; fingerprint_bits = fingerprint plain_hasher 8 k }))
unfolding PairIter.distance PairIter.gap
two_entries =
    build_lem word_packing plain_hasher 8 (pair_range false) (iter_begin cells) (iter_end cells)
      entries entries-Walk refl offsets-AllWords

abbrev built : PermVector word_packing
built = two_entries.0

walk_lem_example :
    walk word_packing plain_hasher 8
      (suc built.size)
      (begin word_packing plain_hasher 8 0 built)
      (end word_packing plain_hasher 8 0 built)
    ≡ done (values_of word_packing plain_hasher 8 entries)
walk_lem_example =
    walk_lem word_packing plain_hasher 8 0 built entries (omega (arith, two_entries.2))
      two_entries.2 (λ i e. two_entries.3 i e.0 e.1)
