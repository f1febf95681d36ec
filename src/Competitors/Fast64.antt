-- ===== src/Competitors/Fast64.antt =====
-- src/competitors/fast64.hpp: an index in a FAST tree (the git submodule src/competitors/fast64).
use learned_secondary_index.Common.{
  ℕ, zero, suc, ◌+◌, ◌-◌, ◌≤◌, ◌<◌, ◌≡◌, refl, ltb, ◌==◌, not, ◌&&◌, if◌then◌else◌, Bool, true,
  Option, none, some, List, [], ◌∷◌, length, get_or, min, arith,
}

-- The C interface of the tree: `lookup_fast64` yields `lb` and `ub`.
pub record Fast64Tree : Type 1 where
  pub Tree : Type 0
  pub create_fast64 : List ℕ → ℕ → List ℕ → ℕ → Tree
  pub lookup_fast64 : Tree → ℕ → ℕ × ℕ
  pub size_fast64 : Tree → ℕ

-- `std::sort` with a test `less`
abbrev pub SortBy : Type 0
SortBy = (ℕ → ℕ → Bool) → List ℕ → List ℕ

-- 0, 1, …, with `n` numbers from `i` on
unfoldable pub count_from : ℕ → ℕ → List ℕ
count_from i zero = []
count_from i (suc n) = i ∷ count_from (suc i) n

-- `Iterator`
pub record Iterator : Type 0 where
  pub current : ℕ
  pub upper_bound : ℕ

unfoldable pub deref : Iterator → ℕ
deref i = i.current

-- `it++`
unfoldable pub post_next : Iterator → Iterator
post_next i = if ltb i.current i.upper_bound then record i { current = i.current + 1 } else i

unfoldable pub iter_eq : Iterator → Iterator → Bool
iter_eq a b = a.current == b.current && a.upper_bound == b.upper_bound

unfoldable pub iter_ne : Iterator → Iterator → Bool
unfolding iter_eq
iter_ne a b = not (iter_eq a b)

module _ (f : Fast64Tree) (sort : SortBy) where
  -- `data_size_` and `tree_`; `none` is the null pointer
  pub record Fast64 : Type 0 where
    pub data_size : ℕ
    pub tree : Option f.Tree

  unfoldable pub new : Fast64
  new = record { data_size = 0; tree = none }

  unfoldable pub fit : List ℕ → Fast64 → Fast64
  unfolding count_from
  fit keys index =
      let n = length keys in
      let values = sort (λ s1 s2. ltb (get_or keys s1 0) (get_or keys s2 0)) (count_from 0 n) in
      let sorted = sort ltb keys in
      record { data_size = n; tree = some (f.create_fast64 sorted n values n) }

  unfoldable pub construct : List ℕ → Fast64
  unfolding fit new
  construct keys = fit keys new

  -- `none` is a call of the library with a null pointer
  unfoldable pub lookup : Fast64 → (lowerbound : Bool) → ℕ → Option Iterator
  lookup index lowerbound key = elim index.tree [
    | none ↦ none
    | some tree ↦
        let found = f.lookup_fast64 tree key in
        some (record { current = found.0; upper_bound = min index.data_size found.1 })
  ]

  unfoldable pub begin : Fast64 → Iterator
  begin index = record { current = 0; upper_bound = index.data_size }

  unfoldable pub end : Fast64 → Iterator
  end index = record { current = index.data_size; upper_bound = index.data_size }

  unfoldable pub base_data_accesses : Fast64 → ℕ
  base_data_accesses index = 0

  unfoldable pub false_positive_accesses : Fast64 → ℕ
  false_positive_accesses index = 0

  unfoldable pub perm_vector_byte_size : Fast64 → ℕ
  perm_vector_byte_size index = 0

  unfoldable pub model_byte_size : Fast64 → Option ℕ
  model_byte_size index = elim index.tree [ none ↦ none | some tree ↦ some (f.size_fast64 tree) ]

  unfoldable pub byte_size : Fast64 → Option ℕ
  unfolding model_byte_size perm_vector_byte_size
  byte_size index = elim (model_byte_size index) [
    | none ↦ none
    | some n ↦ some (perm_vector_byte_size index + n)
  ]

-- `n` times `it++`
abbrev pub advance : ℕ → Iterator → Iterator
advance zero i = i
advance (suc n) i = advance n (post_next i)

-- An iterator within its bound goes up to the bound and stays there.
pub advance_lem :
    (n : ℕ) (i : Iterator)
    → i.current ≤ i.upper_bound
    → ((advance n i).current ≡ min (i.current + n) i.upper_bound)
      × ((advance n i).upper_bound ≡ i.upper_bound)
unfolding post_next
advance_lem zero i le = (omega arith, refl)
advance_lem (suc n) i le = ground (arith, advance_lem n (post_next i))

-- In a FAST64 with a tree, when the tree's answer to a lookup is an interval that ends below the
-- size of the data, `lookup` returns an iterator that `n` increments take `n` positions on, to
-- the end of the interval at most, and that differs from `end()` however often it is advanced.
pub advance-never_end :
    (f : Fast64Tree) (sort : SortBy) (index : Fast64 f sort) (tree : f.Tree) (lowerbound : Bool)
    (key n : ℕ)
    → index.tree ≡ some tree
    → (f.lookup_fast64 tree key).0 ≤ (f.lookup_fast64 tree key).1
    → (f.lookup_fast64 tree key).1 < index.data_size
    → (i : Iterator) × (lookup f sort index lowerbound key ≡ some i)
      × (deref (advance n i) ≡ min ((f.lookup_fast64 tree key).0 + n) (f.lookup_fast64 tree key).1)
      × (iter_ne (advance n i) (end f sort index) ≡ true)
unfolding lookup deref iter_ne end
advance-never_end f sort index tree lowerbound key n built le short =
    let lb = (f.lookup_fast64 tree key).0 in
    let ub = (f.lookup_fast64 tree key).1 in
    let found : Iterator = record { current = lb; upper_bound = min index.data_size ub } in
    let (at, same) = advance_lem n found (omega arith) in
    (found, rw built refl, omega (arith, at), ground (arith, same))

-- An iterator of FAST64 that is within its bound, the bound being the size of the data, equals
-- `end()` when it has been advanced by the distance to its bound.
pub advance-end :
    (f : Fast64Tree) (sort : SortBy) (index : Fast64 f sort) (i : Iterator)
    → i.current ≤ i.upper_bound
    → i.upper_bound ≡ index.data_size
    → iter_eq (advance (i.upper_bound - i.current) i) (end f sort index) ≡ true
unfolding iter_eq end
advance-end f sort index i le full = ground (arith, advance_lem (i.upper_bound - i.current) i)
