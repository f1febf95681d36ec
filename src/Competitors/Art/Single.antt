-- ===== src/Competitors/Art/Single.antt =====
-- An index of one key: the tree is a leaf, and `bound` compares it with the key that is looked up
-- (src/competitors/art.hpp).
use learned_secondary_index.Common.{
  ◌⊎◌, ℕ, zero, suc, ◌-◌, ◌^◌, ◌≤◌, ◌<◌, ◌≡◌, refl, sym, ap, ltb, leb, ◌==◌, inl, inr, Bool,
  Bool-cases, true, false, some, List, [], ◌∷◌, ◌++◌, get_elem?, replicate, if◌then◌else◌, arith,
}
use learned_secondary_index.Common.Run.{done}
use learned_secondary_index.Common.Sorting.{Pair, enumerate, length-perm, perm-in_base}
use mathlib.Core.List.{Perm}
use learned_secondary_index.Competitors.Art.Node.{Ptr, get_leaf_value}
use learned_secondary_index.Competitors.Art.Heap.{Nodes, swap_bytes, load_key, write_ref}
use learned_secondary_index.Competitors.Art.Iterator.{
  Iterator, next, next_loop, leave_leaf, reset, deref,
}
use learned_secondary_index.Competitors.Art.Search.{bound, bound_loop, bound_leaf}
use learned_secondary_index.Competitors.Art.Insert.{insert}
use learned_secondary_index.Competitors.Art.Index.{
  Art, new, fit, construct, insert_all, lookup, end, rounds,
}
use learned_secondary_index.Competitors.Art.Bytes.{compare_bytes-swap_bytes}

sort_single : (x : ℕ) (l : List Pair) → Perm l ((x, 0) ∷ []) → l ≡ (x, 0) ∷ []
sort_single x [] p = absurd (omega (arith, length-perm p))
sort_single x (a ∷ b ∷ l) p = absurd (omega (arith, length-perm p))
sort_single x ((k, zero) ∷ []) p =
    let key : x ≡ k = ground (arith, perm-in_base (x ∷ []) ((k, 0) ∷ []) p 0 (omega arith)) in
    ap (λ y. (y, 0) ∷ []) (sym key)
sort_single x ((k, suc d) ∷ []) p =
    absurd (ground (arith, perm-in_base (x ∷ []) ((k, suc d) ∷ []) p 0 (omega arith)))

next_without_parent :
    (fuel : ℕ) (nodes : Nodes) (it : Iterator)
    → it.depth ≡ 1
    → next (suc fuel) nodes (record it { depth = it.depth - 1 })
      ≡ done (false, record it { depth = 0 })
unfolding next next_loop leave_leaf
next_without_parent fuel nodes it e = rw e refl

-- `bound` at a leaf, with the iterator on the leaf
bound_leaf-order :
    (fuel : ℕ) (nodes : Nodes) (dataset behind : List ℕ) (x k : ℕ) (p : Ptr) (it : Iterator)
    → x < 2 ^ 64
    → k < 2 ^ 64
    → it.depth ≡ 1
    → get_elem? dataset (get_leaf_value p) ≡ some x
    → bound_leaf (suc fuel) nodes dataset (swap_bytes k ++ behind) 8 true p 0 it
      ≡ done (leb k x, if leb k x then it else record it { depth = 0 })
unfolding bound_leaf load_key
bound_leaf-order fuel nodes dataset behind x k p it fits fits' depth here =
    elim (compare_bytes-swap_bytes x k behind fits fits') [
      | inl (run, equal) ↦ let test : leb k x ≡ true = ground arith in rw (here, run, test) refl
      | inr (i, run, inside, (a, b, at_a, at_b, order)) ↦
          let differ : (i == 8 - 0) ≡ false = ground arith in
          elim order [
            | inl (less, order) ↦
                let byte : ltb a b ≡ true = ground arith in
                let test : leb k x ≡ false = ground arith in
                rw (here, run, differ, at_a, at_b, byte, test)
                  (next_without_parent fuel nodes it depth)
            | inr (more, order) ↦
                let byte : ltb a b ≡ false = ground arith in
                let test : leb k x ≡ true = ground arith in
                rw (here, run, differ, at_a, at_b, byte, test) refl
          ]
    ]

abbrev on_leaf : Iterator
on_leaf = record {
  is_end = false;
  value = 0;
  depth = 1;
  stack = record { node = 1; pos = 0 } ∷ replicate 16 (record { node = 0; pos = 0 });
}

module _ (sort : List Pair → List Pair) (permutes : (l : List Pair) → Perm (sort l) l) where
  -- A radix tree over one key below 2 ^ 64 is built, and a lookup of any key below 2 ^ 64, with
  -- either value of its template parameter, returns: an iterator to the key if it is not smaller
  -- than the one looked up, and `end()` if it is. The sort permutes its argument.
  pub lookup_single :
      (x k : ℕ) (lowerbound : Bool)
      → x < 2 ^ 64
      → k < 2 ^ 64
      → (index : Art) × (it : Iterator) × (construct sort (x ∷ []) ≡ done index)
        × (lookup index lowerbound k ≡ done it)
        × (((k ≤ x) × (it.is_end ≡ false) × (get_elem? (x ∷ []) (deref it) ≡ some x))
            ⊎ ((x < k) × (it ≡ end index)))
  unfolding construct fit new insert_all insert write_ref lookup bound bound_loop reset deref
  lookup_single x k lowerbound fits fits' =
      let index : Art = record { dataset = x ∷ []; tree = record { root = 1; nodes = [] } } in
      let sorted = sort_single x (sort (enumerate 0 (x ∷ []))) (permutes (enumerate 0 (x ∷ []))) in
      let run =
        bound_leaf-order (rounds index - 1) [] (x ∷ []) (replicate 8 0) x k 1 on_leaf fits fits'
          refl refl in
      elim (Bool-cases (leb k x)) [
        | inl below ↦
            (index, on_leaf, rw sorted refl, rw (run, below) refl, inl (ground arith, refl, refl))
        | inr above ↦
            (index, end index, rw sorted refl, rw (run, above) refl, inr (ground arith, refl))
      ]
