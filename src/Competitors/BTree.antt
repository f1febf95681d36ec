-- ===== src/Competitors/BTree.antt =====
-- src/competitors/btree.hpp: an index in a B-tree multimap (tlx::btree_multimap) from keys to
-- displacements.
use learned_secondary_index.Common.{
  ℕ, suc, ◌+◌, ◌-◌, ◌*◌, ◌≤◌, ◌<◌, ◌≡◌, ap, ◌∙◌, Bool, true, false, not, ◌==◌, some, List, [], ◌∷◌,
  ◌++◌, length, get_elem?, dec_lt, arith,
}
use learned_secondary_index.Common.Run.{Run, done, ◌>>=◌, read}
use learned_secondary_index.Common.Sorting.{
  Pair, pair_at, key_at, enumerate, IsSortedByKey, get_elem?-get_or, perm-boundary, perm-in_base,
  get_elem?-lt,
}
use learned_secondary_index.Config.{StdSort}
use mathlib.Core.List.{Perm, perm_middle, append-nil}
use mathlib.Core.List.Perm

-- A multimap as the sequence of pairs that its iterators go through, in the order of the keys. An
-- iterator is a position in that sequence.
pub record BTreeMultimap : Type 1 where
  pub Tree : Type 0
  pub empty : Tree
  pub entries : Tree → List Pair
  pub insert2 : Tree → ℕ → ℕ → Tree
  -- the tree must be empty, and the pairs sorted
  pub bulk_load : Tree → List Pair → Tree
  pub lower_bound : Tree → ℕ → ℕ
  -- `get_stats()`
  pub inner_nodes : Tree → ℕ
  pub inner_slots : Tree → ℕ
  pub leaves : Tree → ℕ
  pub leaf_slots : Tree → ℕ
  pub empty_lem : entries empty ≡ []
  pub insert2-perm : (t : Tree) (k d : ℕ) → Perm (entries (insert2 t k d)) ((k, d) ∷ entries t)
  pub insert2-IsSorted :
      (t : Tree) (k d : ℕ) → IsSortedByKey (entries t) → IsSortedByKey (entries (insert2 t k d))
  pub bulk_load_lem :
      (t : Tree) (l : List Pair) → entries t ≡ [] → IsSortedByKey l → entries (bulk_load t l) ≡ l
  pub lower_bound_lem :
      (t : Tree) (key : ℕ)
      → IsSortedByKey (entries t)
      → (lower_bound t key ≤ length (entries t))
        × ((i : ℕ) → i < lower_bound t key → key_at (entries t) i < key)
        × ((i : ℕ) → lower_bound t key ≤ i → i < length (entries t) → key ≤ key_at (entries t) i)

module _ (m : BTreeMultimap) (s : StdSort) where
  -- `for (it = begin; it < end; it++) _tree.insert2(*it, i++)`
  unfoldable pub insert_all : m.Tree → ℕ → List ℕ → m.Tree
  insert_all t i [] = t
  insert_all t i (k ∷ ks) = insert_all (m.insert2 t k i) (suc i) ks

  -- `fit` of BTree<Key, BulkLoad>
  unfoldable pub fit : (bulk_load : Bool) → List ℕ → m.Tree → m.Tree
  unfolding insert_all
  fit true base t = m.bulk_load t (s.sort (enumerate 0 base))
  fit false base t = insert_all t 0 base

  unfoldable pub construct : (bulk_load : Bool) → List ℕ → m.Tree
  unfolding fit
  construct bulk_load base = fit bulk_load base m.empty

  -- a position in the tree
  abbrev pub DisplacementIter : Type 0
  DisplacementIter = ℕ

  -- `lookup`, for either value of its template parameter
  unfoldable pub lookup : m.Tree → (lowerbound : Bool) → ℕ → DisplacementIter
  lookup t lowerbound key = m.lower_bound t key

  unfoldable pub begin : m.Tree → DisplacementIter
  begin t = 0

  unfoldable pub end : m.Tree → DisplacementIter
  end t = length (m.entries t)

  -- `*it`
  unfoldable pub deref : m.Tree → DisplacementIter → Run ℕ
  deref t i = do (k, d) ← read (get_elem? (m.entries t) i); done d

  -- `++it`, `it++` with its result, and `it + n`
  unfoldable pub next : DisplacementIter → DisplacementIter
  next i = i + 1

  unfoldable pub post_next : DisplacementIter → DisplacementIter × DisplacementIter
  unfolding next
  post_next i = (next i, i)

  unfoldable pub plus : DisplacementIter → ℕ → DisplacementIter
  plus i n = i + n

  -- `a - b`: the steps from `a` to a later `b`
  unfoldable pub distance : DisplacementIter → DisplacementIter → ℕ
  distance a b = b - a

  unfoldable pub iter_eq : DisplacementIter → DisplacementIter → Bool
  iter_eq i j = i == j

  unfoldable pub iter_ne : DisplacementIter → DisplacementIter → Bool
  iter_ne i j = not (i == j)

  unfoldable pub base_data_accesses : m.Tree → ℕ
  base_data_accesses t = 0

  unfoldable pub false_positive_accesses : m.Tree → ℕ
  false_positive_accesses t = 0

  unfoldable pub model_byte_size : (sizeof_key sizeof_pointer : ℕ) → m.Tree → ℕ
  model_byte_size sizeof_key sizeof_pointer t =
      m.inner_nodes t * m.inner_slots t * sizeof_key
      + m.inner_nodes t * (m.inner_slots t + 1) * sizeof_pointer

  unfoldable pub perm_vector_byte_size : (sizeof_pair sizeof_pointer : ℕ) → m.Tree → ℕ
  perm_vector_byte_size sizeof_pair sizeof_pointer t =
      m.leaves t * m.leaf_slots t * sizeof_pair + 2 * sizeof_pointer

  unfoldable pub byte_size : (sizeof_key sizeof_pair sizeof_pointer : ℕ) → m.Tree → ℕ
  unfolding model_byte_size perm_vector_byte_size
  byte_size sizeof_key sizeof_pair sizeof_pointer t =
      model_byte_size sizeof_key sizeof_pointer t
      + perm_vector_byte_size sizeof_pair sizeof_pointer t

  -- inserting one by one keeps the tree sorted, and adds the pairs of the range
  insert_all_lem :
      (ks : List ℕ) (i : ℕ) (t : m.Tree)
      → IsSortedByKey (m.entries t)
      → IsSortedByKey (m.entries (insert_all t i ks))
        × Perm (m.entries (insert_all t i ks)) (enumerate i ks ++ m.entries t)
  unfolding insert_all
  insert_all_lem [] i t sorted = (sorted, Perm.rfl)
  insert_all_lem (k ∷ ks) i t sorted =
      let (sorted', perm) =
        insert_all_lem ks (suc i) (m.insert2 t k i) (m.insert2-IsSorted t k i sorted) in
      (
        sorted',
        Perm.trans perm (
            Perm.trans (Perm.append_left (enumerate (suc i) ks) (m.insert2-perm t k i))
              (perm_middle (enumerate (suc i) ks) (m.entries t))),
      )

  -- Either way of building the tree gives the pairs of the range, sorted by key.
  pub construct_lem :
      (bulk_load : Bool) (base : List ℕ)
      → IsSortedByKey (m.entries (construct bulk_load base))
        × Perm (m.entries (construct bulk_load base)) (enumerate 0 base)
  unfolding construct
  construct_lem true base =
      rw
        (m.bulk_load_lem m.empty (s.sort (enumerate 0 base)) m.empty_lem
          (s.sort-IsSorted (enumerate 0 base)))
        (s.sort-IsSorted (enumerate 0 base), s.sort-perm (enumerate 0 base))
  construct_lem false base =
      let nothing : IsSortedByKey (m.entries m.empty) =
        rw m.empty_lem (λ i j p h. absurd (omega arith)) in
      let (sorted, perm) = insert_all_lem base 0 m.empty nothing in
      (sorted, rw (m.empty_lem, append-nil) at perm)

  -- In a BTree that is built on a range, by bulk loading or one by one, a lookup of a key of the
  -- range returns an iterator whose displacement holds the key, and every key before it is
  -- smaller.
  pub lookup_finds :
      (bulk_load lowerbound : Bool) (base : List ℕ) (d key : ℕ)
      → get_elem? base d ≡ some key
      → (d' : ℕ) × (deref
            (construct bulk_load base)
            (lookup (construct bulk_load base) lowerbound key)
          ≡ done d')
        × (get_elem? base d' ≡ some key)
        × ((i : ℕ)
            → i < lookup (construct bulk_load base) lowerbound key
            → key_at (m.entries (construct bulk_load base)) i < key)
  unfolding deref lookup
  lookup_finds bulk_load lowerbound base d key e =
      let t = construct bulk_load base in
      let p = m.lower_bound t key in
      let (sorted, perm) = construct_lem bulk_load base in
      let (le, below, above) = m.lower_bound_lem t key sorted in
      let (inside, same) =
        perm-boundary base (m.entries t) perm d p sorted e (get_elem?-lt base d e) below above in
      (
        (pair_at (m.entries t) p).1,
        rw (get_elem?-get_or (m.entries t) p (0, 0) inside),
        perm-in_base base (m.entries t) perm p inside ∙ ap some same,
        below,
      )

  -- In a BTree that is built on a range, an equality lookup of a key does not return `end()` as
  -- long as the range holds a larger key, whether or not it holds the key.
  pub lookup_absent_ne_end :
      (bulk_load : Bool) (base : List ℕ) (d key larger : ℕ)
      → get_elem? base d ≡ some larger
      → key < larger
      → iter_ne (lookup (construct bulk_load base) false key) (end (construct bulk_load base))
        ≡ true
  unfolding iter_ne lookup end
  lookup_absent_ne_end bulk_load base d key larger e lt =
      let t = construct bulk_load base in
      let p = m.lower_bound t key in
      let (sorted, perm) = construct_lem bulk_load base in
      let (le, below, above) = m.lower_bound_lem t key sorted in
      let (le', below', above') = m.lower_bound_lem t larger sorted in
      let (inside, same) =
        perm-boundary base (m.entries t) perm d (m.lower_bound t larger) sorted e
          (get_elem?-lt base d e) below' above' in
      let before : p ≤ m.lower_bound t larger = elim (dec_lt (m.lower_bound t larger) p) [
        | yes less ↦ absurd (omega (arith, below (m.lower_bound t larger) less))
        | no le ↦ omega arith
      ] in
      ground arith
