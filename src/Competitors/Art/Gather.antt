-- ===== src/Competitors/Art/Gather.antt =====
-- A full Node16 as a Node48, and a full Node4 as a Node16: the copies and the index that `insertNode16`
-- and `insertNode4` make (src/competitors/art.hpp).
use learned_secondary_index.Common.{
  ℕ, ◌+◌, ◌-◌, ◌≤◌, ◌<◌, ◌≡◌, refl, ap, ◌∙◌, sym, ltb, ◌==◌, false, inl, inr, ◌⊎◌, List, ◌++◌,
  length, get_or, take, drop, replicate, arith,
}
use learned_secondary_index.Common.Run.{done}
use learned_secondary_index.Common.Arrays.{at, memcpy}
use learned_secondary_index.Common.ArrayLaws.{
  length-take, length-replicate, get_or-replicate, get_or-replicate_lt, take-append, get_or-append,
  get_or-take, get_or-drop, memcpy_lem, length-memcpy,
}
use learned_secondary_index.Competitors.Art.Node.{Ptr, max_prefix_length, Header}
use learned_secondary_index.Competitors.Art.Sorted.{assoc, NonNull-get_or}
use learned_secondary_index.Competitors.Art.Indices.{index_in-key, index_in, index_in-assoc}
use learned_secondary_index.Competitors.Art.Contract.{
  IsSortedNode, IsIndexedNode, same_length, indexed,
}

-- the first elements of an array that was copied to the front of zeros
module _ (xs : List ℕ) (cap n : ℕ) (le : n ≤ length xs) (room : n ≤ cap) where
  abbrev pub copied : List ℕ
  copied = take 0 (replicate cap 0) ++ (take n (drop 0 xs) ++ drop (0 + n) (replicate cap 0))

  pub copied_run : memcpy (replicate cap 0) 0 xs 0 n ≡ done copied
  copied_run =
      memcpy_lem (replicate cap 0) 0 xs 0 n (rw (length-replicate {A = ℕ}) (omega arith))
        (omega arith)

  pub length-copied : length copied ≡ cap
  length-copied =
      length-memcpy (replicate cap 0) 0 xs 0 n (rw (length-replicate {A = ℕ}) (omega arith))
        (omega arith)
      ∙ length-replicate {A = ℕ} cap 0

  pub take-copied : take n copied ≡ take n xs
  take-copied =
      rw (length-take n xs le) at (take-append (take n xs) (drop (0 + n) (replicate cap 0)))

  pub copied_rest : (i : ℕ) → n ≤ i → get_or copied i 0 ≡ 0
  copied_rest i p =
      let size : length (take n xs) ≡ n = length-take n xs le in
      let after : ltb i n ≡ false = ground arith in
      let whole = get_or-append (take n xs) (drop (0 + n) (replicate cap 0)) i 0 in
      rw (whole, size, after)
        (get_or-drop (0 + n) (replicate cap 0) (i - n) 0
          ∙ get_or-replicate {A = ℕ} cap (0 + n + (i - n)) 0)

-- the slots that the loop over the keys gives to the bytes
slot_of :
    (ks : List ℕ) (cs : List Ptr) (index k : ℕ)
    → length ks ≡ length cs
    → k < 256
    → index ≡ index_in 0 ks (get_or (replicate 256 48) k 0) k
    → ((index ≡ 48) × (assoc ks cs k ≡ 0))
      ⊎ ((index < length ks) × (get_or cs index 0 ≡ assoc ks cs k))
slot_of ks cs index k l lt e =
    let e' : index ≡ index_in 0 ks 48 k = rw (get_or-replicate_lt {A = ℕ} 256 k 48 0 lt) at e in
    elim (index_in-assoc 0 k ks cs l) [
      | inl (unused, none_there) ↦ inl (e' ∙ unused, none_there)
      | inr (j, at, less, same) ↦
          let i : index ≡ j = e' ∙ (at ∙ omega arith) in inr (omega arith, rw i same)
    ]

-- a full Node16 as a Node48
module _ (h : Header) (key : List ℕ) (child : List Ptr) (w : IsSortedNode 16 h key child)
    (g : Header) (count : g.count ≡ h.count) (prefix : length g.prefix ≡ max_prefix_length) where
  abbrev pub grown : List Ptr
  grown = copied child 48 h.count (omega (arith, w.fits, w.slots)) (omega (arith, w.fits))

  grown_slot : (i : ℕ) → i < h.count → get_or (take h.count child) i 0 ≡ get_or grown i 0
  grown_slot i less =
      let same =
        take-copied child 48 h.count (omega (arith, w.fits, w.slots)) (omega (arith, w.fits)) in
      ap (λ xs. get_or xs i 0) (sym same) ∙ get_or-take h.count grown i 0 less

  module _ (array : List ℕ) (size : length array ≡ 256)
      (index : (k : ℕ)
        → get_or array k 0 ≡ index_in 0 (take h.count key) (get_or (replicate 256 48) k 0) k) where
    slots_of_keys :
        (k : ℕ)
        → k < 256
        → ((get_or array k 0 ≡ 48) × (assoc (take h.count key) (take h.count child) k ≡ 0))
          ⊎ ((get_or array k 0 < h.count)
              × (get_or (take h.count child) (get_or array k 0) 0
                  ≡ assoc (take h.count key) (take h.count child) k))
    slots_of_keys k lt =
        let n : length (take h.count key) ≡ h.count =
          length-take h.count key (omega (arith, w.fits, w.keys)) in
        rw n at (
          slot_of (take h.count key) (take h.count child) (get_or array k 0) k
            (same_length h key child 16 w) lt (index k))

    index_of : (k : ℕ) → k < 256 → get_or array k 0 ≡ index_in 0 (take h.count key) 48 k
    index_of k lt =
        let marker : get_or (replicate 256 48) k 0 ≡ 48 = get_or-replicate_lt 256 k 48 0 lt in
        index k ∙ ap (λ d. index_in 0 (take h.count key) d k) marker

    own_key :
        (j k : ℕ)
        → j < 256
        → k < 256
        → get_or array j 0 ≡ get_or array k 0
        → get_or array j 0 < 48
        → j ≡ k
    own_key j k lt lt' same less = elim (index_in-key 0 j (take h.count key)) [
      | inl absent ↦ absurd (omega (arith, index_of j lt, absent, less))
      | inr (le, here) ↦ elim (index_in-key 0 k (take h.count key)) [
        | inl absent ↦ absurd (omega (arith, index_of k lt', absent, less, same))
        | inr (le', here') ↦
            let indices : index_in 0 (take h.count key) 48 j ≡ index_in 0 (take h.count key) 48 k =
              sym (index_of j lt) ∙ same ∙ index_of k lt' in
            sym here ∙ ap (λ i. get_or (take h.count key) (i - 0) 0) indices ∙ here'
      ]
    ]

    pub grown_node : IsIndexedNode g array grown
    grown_node = record {
      fits = omega (arith, w.fits);
      prefix = prefix;
      indices = size;
      slots =
          length-copied child 48 h.count (omega (arith, w.fits, w.slots)) (omega (arith, w.fits));
      index = λ k lt.
          rw count
            (elim (slots_of_keys k lt) [ inl (unused, _) ↦ inl unused | inr (less, _) ↦ inr less ]);
      own = own_key;
      nonnull = λ i less. rw (← grown_slot i (omega arith)) (
          NonNull-get_or (take h.count child) i w.nonnull
            (omega (arith, length-take h.count child (omega (arith, w.fits, w.slots)))));
      free = λ i p q.
          copied_rest child 48 h.count (omega (arith, w.fits, w.slots)) (omega (arith, w.fits)) i
            (omega arith);
    }

    pub grown_child :
        (k : ℕ) → k < 256 → assoc (take h.count key) (take h.count child) k ≡ indexed array grown k
    grown_child k lt = elim (slots_of_keys k lt) [
      | inl (unused, none_there) ↦ rw (unused, none_there) refl
      | inr (less, there) ↦
          let test : (get_or array k 0 == 48) ≡ false = ground (arith, w.fits) in
          rw test (sym there ∙ grown_slot (get_or array k 0) less)
    ]
