-- ===== src/Competitors/Art/PlaceIndexed.antt =====
-- The Node48 with room: what `insertNode48` makes of it (src/competitors/art.hpp).
use learned_secondary_index.Common.{
  ℕ, sym, ◌<◌, ◌≡◌, ◌≢◌, refl, ap, ◌∙◌, ltb, ◌==◌, if◌then◌else◌, true, false, Bool-cases, inl, inr,
  ◌⊎◌, List, get_or, arith,
}
use learned_secondary_index.Common.Run.{done}
use learned_secondary_index.Common.Arrays.{at, set}
use learned_secondary_index.Common.ArrayLaws.{length-set, get_or-set, at-get_or, write_lem}
use learned_secondary_index.Competitors.Art.Node.{Ptr, Header, node48}
use learned_secondary_index.Competitors.Art.Children.{insert_node48, place_node48, incr_count}
use learned_secondary_index.Competitors.Art.Contract.{
  IsIndexedNode, Inserts, indexed, child_at-node48, incr_lem,
}

module _ (b c : ℕ) (byte : b < 256) (ne : c ≢ 0) where
  module _ (h : Header) (child_index : List ℕ) (child : List Ptr)
      (w : IsIndexedNode h child_index child) (room : h.count < 48) where
    abbrev indices' : List ℕ
    indices' = set child_index b h.count

    abbrev slots' : List Ptr
    slots' = set child h.count c

    index_set : (k : ℕ) → get_or indices' k 0 ≡ (if b == k then h.count else get_or child_index k 0)
    index_set k = get_or-set child_index b k h.count 0 (omega (arith, w.indices))

    slot_set : (i : ℕ) → get_or slots' i 0 ≡ (if h.count == i then c else get_or child i 0)
    slot_set i = get_or-set child h.count i c 0 (omega (arith, w.slots))

    indexed_result : IsIndexedNode (incr_count h) indices' slots'
    indexed_result = record {
      fits = omega (arith, incr_lem h (omega arith));
      prefix = w.prefix;
      indices = length-set child_index b h.count ∙ w.indices;
      slots = length-set child h.count c ∙ w.slots;
      index = λ k lt. rw index_set (new_index k lt);
      own = λ j k lt lt' same less.
          new_own j k lt lt' (sym (index_set j) ∙ same ∙ index_set k)
            (omega (arith, index_set j, less));
      nonnull = λ i less. rw slot_set (new_slot i less);
      free = λ i p q. ground (arith, slot_set i, w.free i (omega arith) q);
    }
      where
        new_slot :
            (i : ℕ) → i < (incr_count h).count → (if h.count == i then c else get_or child i 0) ≢ 0
        new_slot i less = elim (Bool-cases (h.count == i)) [
          | inl last ↦ rw last ne
          | inr other ↦ rw other (w.nonnull i (ground (arith, incr_lem h (omega arith))))
        ]

        new_own :
            (j k : ℕ)
            → j < 256
            → k < 256
            → (if b == j then h.count else get_or child_index j 0)
              ≡ (if b == k then h.count else get_or child_index k 0)
            → (if b == j then h.count else get_or child_index j 0) < 48
            → j ≡ k
        new_own j k lt lt' same less =
            ground (arith, w.index j lt, w.index k lt', w.own j k lt lt', same, less, room)

        new_index :
            (k : ℕ)
            → k < 256
            → ((if b == k then h.count else get_or child_index k 0) ≡ 48)
              ⊎ ((if b == k then h.count else get_or child_index k 0) < (incr_count h).count)
        new_index k lt = elim (Bool-cases (b == k)) [
          | inl same ↦ rw same (inr (omega (arith, incr_lem h (omega arith))))
          | inr other ↦ elim (w.index k lt) [
            | inl none_there ↦ rw other (inl none_there)
            | inr there ↦ rw other (inr (omega (arith, incr_lem h (omega arith))))
          ]
        ]

    indexed_child :
        (k : ℕ)
        → k < 256
        → indexed indices' slots' k ≡ (if b == k then c else indexed child_index child k)
    indexed_child k lt = elim (Bool-cases (b == k)) [
      | inl same ↦
          let index : get_or indices' k 0 ≡ h.count = rw same at (index_set k) in
          let test : (h.count == 48) ≡ false = ground arith in
          let self : (h.count == h.count) ≡ true = ground arith in
          let found : get_or slots' h.count 0 ≡ c = rw self at (slot_set h.count) in
          rw (same, index, test, found) refl
      | inr other ↦
          let index : get_or indices' k 0 ≡ get_or child_index k 0 = rw other at (index_set k) in
          elim (w.index k lt) [
            | inl unused ↦ rw (other, index, unused) refl
            | inr less ↦
                let test : (get_or child_index k 0 == 48) ≡ false = ground arith in
                let differs : (h.count == get_or child_index k 0) ≡ false = ground arith in
                let kept : get_or slots' (get_or child_index k 0) 0
                    ≡ get_or child (get_or child_index k 0) 0 =
                  rw differs at (slot_set (get_or child_index k 0)) in
                rw (other, index, test, kept) refl
          ]
    ]

    pub insert_with_room48 :
        Inserts (node48 h child_index child) b c (insert_node48 h child_index child b c)
    unfolding insert_node48 place_node48
    insert_with_room48 =
        let test : ltb h.count 48 ≡ true = ground arith in
        let last : at child h.count ≡ done 0 =
          at-get_or child h.count 0 (omega (arith, w.slots))
          ∙ ap done (w.free h.count (omega arith) room) in
        (
          node48 (incr_count h) indices' slots',
          rw
              (
                test,
                last,
                write_lem child h.count c (omega (arith, w.slots)),
                write_lem child_index b h.count (omega (arith, w.indices)),
              )
              refl,
          indexed_result,
          λ k lt. (
            indexed child_index child k,
            child_at-node48 h child_index child k lt w,
            child_at-node48 (incr_count h) indices' slots' k lt indexed_result
                ∙ ap done (indexed_child k lt),
          ),
        )
