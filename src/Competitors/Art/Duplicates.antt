-- ===== src/Competitors/Art/Duplicates.antt =====
-- Keys that occur twice in a radix tree (src/competitors/art.hpp). `fit` appends the position to each
-- key, and `loadKey` does not write these bytes of a key that is already in the tree.
use learned_secondary_index.Common.{
  ℕ, zero, suc, ◌+◌, ◌-◌, ◌<◌, ◌≡◌, refl, ◌==◌, inl, inr, true, false, some, List, ◌++◌, length,
  get_elem?, arith, Option-cases,
}
use learned_secondary_index.Common.Run.{out_of_bounds}
use learned_secondary_index.Common.ArrayLaws.{get_elem?-append, get_elem?-within}
use learned_secondary_index.Competitors.Art.Node.{Ptr, is_leaf, get_leaf_value}
use learned_secondary_index.Competitors.Art.Heap.{Tree, Ref, swap_bytes, load_key}
use learned_secondary_index.Competitors.Art.Insert.{common_length, insert, insert_at_leaf}

-- the comparison of an array with one that goes on behind it leaves the array
common_length-out_of_bounds :
    (fuel n : ℕ) (a b : List ℕ) (depth : ℕ)
    → length a - (depth + n) < fuel
    → common_length fuel n a (a ++ b) depth ≡ out_of_bounds
unfolding common_length
common_length-out_of_bounds zero n a b depth enough = absurd (omega arith)
common_length-out_of_bounds (suc fuel) n a b depth enough =
    elim (Option-cases (get_elem? a (depth + n))) [
      | inl e ↦ rw e refl
      | inr (x, e) ↦
          let less = get_elem?-within a (depth + n) x e in
          let self : (x == x) ≡ true = ground arith in
          rw (e, get_elem?-append a b (depth + n) x e, self)
            (common_length-out_of_bounds fuel (n + 1) a b depth (omega arith))
    ]

-- An insertion into the radix tree that reaches a leaf whose key has the same 8 bytes reads bytes
-- of the leaf's key that were not written, whatever bytes follow the inserted key and at any
-- depth.
pub insert-duplicate :
    (dataset : List ℕ) (key value : ℕ) (behind : List ℕ) (fuel : ℕ) (t : Tree) (p : Ptr) (ref : Ref)
    (depth : ℕ)
    → is_leaf p ≡ true
    → get_elem? dataset (get_leaf_value p) ≡ some key
    → insert dataset (swap_bytes key ++ behind) value (suc fuel) t p ref depth ≡ out_of_bounds
unfolding insert insert_at_leaf load_key
insert-duplicate dataset key value behind fuel t p ref depth leaf here =
    let test : (p == 0) ≡ false = ground arith in
    rw
      (
        test,
        leaf,
        here,
        common_length-out_of_bounds 18 0 (swap_bytes key) behind depth (omega arith),
      )
      refl
