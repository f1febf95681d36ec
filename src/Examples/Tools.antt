-- ===== src/Examples/Tools.antt =====
-- The results about the competitors, with lists for the trees and maps of the libraries.
use learned_secondary_index.Common.{
  ℕ, ◌<◌, ◌≡◌, refl, List, [], ◌∷◌, get_elem?, some, true, false, arith,
}
use learned_secondary_index.Common.Run.{done}
use learned_secondary_index.Common.Sorting.{key_at}
use learned_secondary_index.Instances.Trees.{list_multimap, list_map, list_fast64}
use learned_secondary_index.Instances.Sort.{insertion_sort}
use learned_secondary_index.Competitors.BTree
use learned_secondary_index.Competitors.RobinHash
use learned_secondary_index.Competitors.Fast64
use learned_secondary_index.Competitors.Fast64.{Iterator, Fast64, advance}

abbrev keys : List ℕ
keys = 30 ∷ 10 ∷ 30 ∷ 20 ∷ []

lookup_finds_example :
    (d' : ℕ) × (BTree.deref list_multimap insertion_sort
        (BTree.construct list_multimap insertion_sort false keys)
        (BTree.lookup list_multimap insertion_sort
          (BTree.construct list_multimap insertion_sort false keys)
          true
          30)
      ≡ done d')
    × (get_elem? keys d' ≡ some 30)
    × ((i : ℕ)
        → i
          < BTree.lookup list_multimap insertion_sort
              (BTree.construct list_multimap insertion_sort false keys)
              true
              30
        → key_at (BTree.construct list_multimap insertion_sort false keys) i < 30)
lookup_finds_example = BTree.lookup_finds list_multimap insertion_sort false true keys 2 30 refl

lookup_absent_ne_end_example :
    BTree.iter_ne list_multimap insertion_sort
      (BTree.lookup list_multimap insertion_sort
        (BTree.construct list_multimap insertion_sort true keys)
        false
        25)
      (BTree.end list_multimap insertion_sort
        (BTree.construct list_multimap insertion_sort true keys))
    ≡ true
lookup_absent_ne_end_example =
    BTree.lookup_absent_ne_end list_multimap insertion_sort true keys 0 25 30 refl (omega arith)

lookup-construct_example :
    RobinHash.lookup list_map (RobinHash.construct list_map keys) 30
    ≡ RobinHash.first_at list_map 0 keys 30
lookup-construct_example = RobinHash.lookup-construct list_map keys 30

lookup-fit_again_example :
    RobinHash.lookup list_map (RobinHash.fit list_map (10 ∷ 30 ∷ []) ((30, 7) ∷ [])) 30 ≡ some 7
unfolding RobinHash.lookup
lookup-fit_again_example =
    RobinHash.lookup-fit_again list_map (10 ∷ 30 ∷ []) ((30, 7) ∷ []) 30 7 refl

abbrev short_index : Fast64 list_fast64 (λ less xs. xs)
short_index = record { data_size = 4; tree = some keys }

abbrev from_1 : ℕ → Iterator
from_1 bound = record { current = 1; upper_bound = bound }

abbrev sorted_index : Fast64 list_fast64 (λ less xs. xs)
sorted_index = record { data_size = 4; tree = some (10 ∷ 20 ∷ 30 ∷ 30 ∷ []) }

advance-never_end_example :
    (i : Iterator) × (Fast64.lookup list_fast64 (λ less xs. xs) sorted_index true 20 ≡ some i)
    × (Fast64.deref (advance 9 i) ≡ 2)
    × (Fast64.iter_ne (advance 9 i) (Fast64.end list_fast64 (λ less xs. xs) sorted_index) ≡ true)
advance-never_end_example =
    Fast64.advance-never_end list_fast64 (λ less xs. xs) sorted_index (10 ∷ 20 ∷ 30 ∷ 30 ∷ []) true
      20 9 refl (omega arith) (omega arith)

advance-end_example :
    Fast64.iter_eq (advance 3 (from_1 4)) (Fast64.end list_fast64 (λ less xs. xs) short_index)
    ≡ true
advance-end_example =
    Fast64.advance-end list_fast64 (λ less xs. xs) short_index (from_1 4) (omega arith) refl
