-- ===== src/Instances/Trees.antt =====
-- The trees and maps of the competitors' libraries as lists.
use learned_secondary_index.Common.{
  ℕ, zero, suc, ◌+◌, ◌≤◌, ◌<◌, ◌≡◌, ◌==◌, refl, List, [], ◌∷◌, length, some, none, Option, false,
  if◌then◌else◌, Bool-cases, inl, inr, ltb, ap, ◌*◌, Option-cases, arith,
}
use learned_secondary_index.Common.Sorting.{Pair, key_at, IsSortedByKey}
use learned_secondary_index.Competitors.BTree.{BTreeMultimap}
use learned_secondary_index.Competitors.RobinHash.{RobinMap}
use learned_secondary_index.Competitors.Fast64.{Fast64Tree}
use learned_secondary_index.Instances.Sort.{insert, insert-perm, insert-sorted, tail-sorted}
use learned_secondary_index.Random.{Random}
use mathlib.Core.List.Perm

-- the first position whose key is not smaller
abbrev pub boundary : List Pair → ℕ → ℕ
boundary [] key = 0
boundary ((k, d) ∷ l) key = if ltb k key then suc (boundary l key) else 0

abbrev pub find : List Pair → ℕ → Option ℕ
find [] key = none
find ((k, d) ∷ l) key = if k == key then some d else find l key

-- `insert` of a map, which keeps an old value
abbrev pub put : List Pair → ℕ → ℕ → List Pair
put l k d = elim (find l k) [ none ↦ (k, d) ∷ l | some old ↦ l ]

cons_below :
    (p : Pair) (l : List Pair) (n key : ℕ)
    → p.0 < key
    → ((i : ℕ) → i < n → key_at l i < key)
    → (i : ℕ) → i < suc n
    → key_at (p ∷ l) i < key
cons_below p l n key small below zero h = small
cons_below p l n key small below (suc i) h = below i (omega arith)

cons_above :
    (p : Pair) (l : List Pair) (n key : ℕ)
    → ((i : ℕ) → n ≤ i → i < length l → key ≤ key_at l i)
    → (i : ℕ) → suc n ≤ i
    → i < length (p ∷ l)
    → key ≤ key_at (p ∷ l) i
cons_above p l n key above zero q h = absurd (omega arith)
cons_above p l n key above (suc i) q h = above i (omega arith) (omega arith)

pub boundary_lem :
    (l : List Pair) (key : ℕ)
    → IsSortedByKey l
    → (boundary l key ≤ length l)
      × ((i : ℕ) → i < boundary l key → key_at l i < key)
      × ((i : ℕ) → boundary l key ≤ i → i < length l → key ≤ key_at l i)
boundary_lem [] key sorted =
    (omega arith, λ i h. absurd (omega arith), λ i p h. absurd (omega arith))
boundary_lem ((k, d) ∷ l) key sorted = elim (Bool-cases (ltb k key)) [
  | inl e ↦
      let (le, below, above) = boundary_lem l key (tail-sorted (k, d) l sorted) in
      let small : k < key = ground arith in
      rw e (
        omega arith,
        cons_below (k, d) l (boundary l key) key small below,
        cons_above (k, d) l (boundary l key) key above,
      )
  | inr e ↦ rw e (
    omega arith,
    λ i h. absurd (omega arith),
    λ i p h. omega (arith, sorted 0 i (omega arith) h, large e),
  )
]
  where
    large : ltb k key ≡ false → key ≤ k
    large e = ground arith

pub find-put_old :
    (l : List Pair) (k d key old : ℕ) → find l key ≡ some old → find (put l k d) key ≡ some old
find-put_old l k d key old e = elim (Option-cases (find l k)) [
  | inr (other, there) ↦ ground (arith, there, e)
  | inl new ↦ elim (Bool-cases (k == key)) [
    | inl same ↦ let at : k ≡ key = ground arith in absurd (ground (arith, ap (find l) at))
    | inr differs ↦ ground arith
  ]
]

pub find-put_new :
    (l : List Pair) (k d key : ℕ)
    → find l key ≡ none
    → find (put l k d) key ≡ (if k == key then some d else none)
find-put_new l k d key e = elim (Option-cases (find l k)) [
  | inl new ↦ ground arith
  | inr (other, there) ↦ elim (Bool-cases (k == key)) [
    | inl same ↦ let at : k ≡ key = ground arith in absurd (ground (arith, ap (find l) at))
    | inr differs ↦ ground arith
  ]
]

abbrev pub list_multimap : BTreeMultimap
list_multimap = record {
  Tree = List Pair;
  empty = [];
  entries = λ t. t;
  insert2 = λ t k d. insert (k, d) t;
  bulk_load = λ t l. l;
  lower_bound = boundary;
  inner_nodes = λ t. 0;
  inner_slots = λ t. 16;
  leaves = λ t. 1;
  leaf_slots = λ t. 16;
  empty_lem = refl;
  insert2-perm = λ t k d. insert-perm (k, d) t;
  insert2-IsSorted = λ t k d s. insert-sorted (k, d) t s;
  bulk_load_lem = λ t l e s. refl;
  lower_bound_lem = boundary_lem;
}

abbrev pub list_map : RobinMap
list_map = record {
  Map = List Pair;
  empty = [];
  reserve = λ l n. l;
  insert = put;
  find = find;
  bucket_count = length;
  find-empty = λ key. refl;
  find-reserve = λ l n key. refl;
  find-insert_old = find-put_old;
  find-insert_new = find-put_new;
}

-- the number of keys before the first one that is not smaller
abbrev position : List ℕ → ℕ → ℕ
position [] key = 0
position (k ∷ l) key = if ltb k key then suc (position l key) else 0

abbrev pub list_fast64 : Fast64Tree
list_fast64 = record {
  Tree = List ℕ;
  create_fast64 = λ keys n values m. keys;
  lookup_fast64 = λ keys key. (position keys key, suc (position keys key));
  size_fast64 = λ keys. 8 * length keys;
}

-- draws that are always the lowest, from a generator that counts them
abbrev pub lowest_draws : Random
lowest_draws = record {
  Rng = ℕ;
  uniform = λ low high g. (low, g + 1);
  uniform_int = λ low high g. (low, g + 1);
  shuffle = λ l g. (l, g + 1);
  normal = λ g. (g, g + 1);
  exponential = λ bound g. (0, g + 1);
  uniform_int_bounds = λ low high g h small. (omega arith, h);
  exponential-le = λ bound g small. omega arith;
  shuffle-perm = λ l g. Perm.rfl;
}
