-- ===== src/Competitors/Art/Slot.antt =====
-- A write through the pointer that `findChild` returns (src/competitors/art.hpp).
use learned_secondary_index.Common.{
  ℕ, ◌<◌, ◌≡◌, ◌≢◌, refl, ap, ◌∙◌, sym, ◌==◌, true, false, inl, inr, some, List, length, get_elem?,
  get_or, take, arith, ℕ_discrete,
}
use learned_secondary_index.Common.Run.{done}
use learned_secondary_index.Common.Arrays.{at, set}
use learned_secondary_index.Common.ArrayLaws.{length-set, length-take, get_or-set, at-get_or}
use learned_secondary_index.Competitors.Art.Node.{
  Ptr, Header, Node, node4, node16, node48, node256, header, children, with_children,
}
use learned_secondary_index.Competitors.Art.Children.{find_child}
use learned_secondary_index.Competitors.Art.Search.{child_at}
use learned_secondary_index.Competitors.Art.Sorted.{assoc, Holds-take, take-map}
use learned_secondary_index.Competitors.Art.Contract.{
  IsNode, IsSortedNode, IsIndexedNode, IsDirectNode, indexed, child_at-node4, child_at-node16,
  child_at-node48,
}
use learned_secondary_index.Competitors.Art.Spread.{child_at-node256}
use learned_secondary_index.Competitors.Art.SlotWrite.{
  first_of, take-set, NonNull-set, get_elem?-take, get_elem?-get_or, get_elem?-first_of,
  find_key-first_of, lowest_set-first_of, assoc-set_same, assoc-set_other,
}

-- the node with another pointer in a slot
abbrev pub rewritten : Node → (i : ℕ) → Ptr → Node
rewritten node i c = with_children node (set (children node) i c)

abbrev pub SlotOf : Node → (b : ℕ) → (c : Ptr) → Type 0
SlotOf node b c =
    (i : ℕ) × (find_child node b ≡ done (some i))
    × (get_elem? (children node) i ≡ some c)
    × ((c' : Ptr)
        → c' ≢ 0
        → IsNode (rewritten node i c')
          × (child_at (rewritten node i c') b ≡ done c')
          × ((k : ℕ) → k < 256 → k ≢ b → child_at (rewritten node i c') k ≡ child_at node k))

pub header-rewritten : (node : Node) (i : ℕ) (c : Ptr) → header (rewritten node i c) ≡ header node
header-rewritten (node4 h key child) i c = refl
header-rewritten (node16 h key child) i c = refl
header-rewritten (node48 h child_index child) i c = refl
header-rewritten (node256 h child) i c = refl

module _ (cap : ℕ) (h : Header) (key : List ℕ) (child : List Ptr) (w : IsSortedNode cap h key child)
    (b : ℕ) where
  abbrev slot : ℕ
  slot = first_of b (take h.count key)

  sorted_rewritten : (c' : Ptr) → c' ≢ 0 → IsSortedNode cap h key (set child slot c')
  sorted_rewritten c' ne = record {
    fits = w.fits;
    prefix = w.prefix;
    keys = w.keys;
    slots = length-set child slot c' ∙ w.slots;
    ascending = w.ascending;
    nonnull =
        rw (take-set h.count slot c' child) (NonNull-set (take h.count child) slot c' w.nonnull ne);
  }

slot_same : (a : List ℕ) (i v : ℕ) → i < length a → get_or (set a i v) i 0 ≡ v
slot_same a i v lt =
    let self : (i == i) ≡ true = ground arith in rw self at (get_or-set a i i v 0 lt)

slot_other : (a : List ℕ) (i j v : ℕ) → i < length a → j ≢ i → get_or (set a i v) j 0 ≡ get_or a j 0
slot_other a i j v lt ne =
    let other : (i == j) ≡ false = ground arith in rw other at (get_or-set a i j v 0 lt)

module _ (h : Header) (child_index : List ℕ) (child : List Ptr)
    (w : IsIndexedNode h child_index child) where
  indexed_rewritten :
      (i c' : ℕ) → i < h.count → c' ≢ 0 → IsIndexedNode h child_index (set child i c')
  indexed_rewritten i c' less ne =
      let inside : i < length child = omega (arith, w.slots, w.fits) in
      record {
        fits = w.fits;
        prefix = w.prefix;
        indices = w.indices;
        slots = length-set child i c' ∙ w.slots;
        index = w.index;
        own = w.own;
        nonnull = λ j lt. elim (ℕ_discrete j i) [
          | yes same ↦ rw (same, slot_same child i c' inside) ne
          | no other ↦ rw (slot_other child i j c' inside other) (w.nonnull j lt)
        ];
        free = λ j le lt.
            slot_other child i j c' inside (λ same. omega (arith, same)) ∙ w.free j le lt;
      }

  indexed_other :
      (b k c' : ℕ)
      → b < 256
      → k < 256
      → k ≢ b
      → get_or child_index b 0 < h.count
      → indexed child_index (set child (get_or child_index b 0) c') k ≡ indexed child_index child k
  indexed_other b k c' lt lt' ne less = elim (w.index k lt') [
    | inl unused ↦ rw unused refl
    | inr there ↦
        let test : (get_or child_index k 0 == 48) ≡ false = ground (arith, w.fits) in
        rw test (
          slot_other child (get_or child_index b 0) (get_or child_index k 0) c'
            (omega (arith, w.slots, w.fits))
            (λ same. ne (w.own k b lt' lt same (omega (arith, w.fits)))))
  ]

pub slot_lem :
    (node : Node) (b : ℕ) (c : Ptr)
    → IsNode node
    → b < 256
    → child_at node b ≡ done c
    → c ≢ 0
    → SlotOf node b c
unfolding find_child
slot_lem (node4 h key child) b c w lt at_b ne =
    let ks = take h.count key in
    let cs = take h.count child in
    let same : assoc ks cs b ≡ c = ground (arith, child_at-node4 h key child b w, at_b) in
    let there : assoc ks cs b ≢ 0 = λ null. ne (sym same ∙ null) in
    let n : length ks ≡ h.count = length-take h.count key (omega (arith, w.fits, w.keys)) in
    let found = find_key-first_of b key 0 ks cs (Holds-take key h.count) there in
    (
      first_of b ks,
      rw n at found ∙ ap (λ j. done (some j)) (omega arith),
      get_elem?-take h.count (first_of b ks) c child
          (get_elem?-first_of b ks cs there ∙ ap some same),
      λ c' ne'.
          let w' = sorted_rewritten 4 h key child w b c' ne' in
          let moved = take-set h.count (first_of b ks) c' child in
          (
            w',
            child_at-node4 h key (set child (first_of b ks) c') b w'
                ∙ ap done (rw moved (assoc-set_same b ks cs c' there)),
            λ k lt other.
                child_at-node4 h key (set child (first_of b ks) c') k w'
                ∙ ap done (rw moved (assoc-set_other b ks cs c' k other))
                ∙ sym (child_at-node4 h key child k w),
          ),
    )
slot_lem (node16 h key child) b c w lt at_b ne =
    let ks = take h.count key in
    let cs = take h.count child in
    let same : assoc ks cs b ≡ c = ground (arith, child_at-node16 h key child b w, at_b) in
    let there : assoc ks cs b ≢ 0 = λ null. ne (sym same ∙ null) in
    let found = lowest_set-first_of b 0 ks cs there in
    (
      first_of b ks,
      rw (take-map h.count (λ k. k == b) key)
          (ap done found ∙ ap (λ j. done (some j)) (omega arith)),
      get_elem?-take h.count (first_of b ks) c child
          (get_elem?-first_of b ks cs there ∙ ap some same),
      λ c' ne'.
          let w' = sorted_rewritten 16 h key child w b c' ne' in
          let moved = take-set h.count (first_of b ks) c' child in
          (
            w',
            child_at-node16 h key (set child (first_of b ks) c') b w'
                ∙ ap done (rw moved (assoc-set_same b ks cs c' there)),
            λ k lt other.
                child_at-node16 h key (set child (first_of b ks) c') k w'
                ∙ ap done (rw moved (assoc-set_other b ks cs c' k other))
                ∙ sym (child_at-node16 h key child k w),
          ),
    )
slot_lem (node48 h child_index child) b c w lt at_b ne =
    let i = get_or child_index b 0 in
    let index : at child_index b ≡ done i = at-get_or child_index b 0 (omega (arith, w.indices)) in
    let view = child_at-node48 h child_index child b lt w in
    elim (w.index b lt) [
      | inl unused ↦ absurd (ne (ground (arith, rw unused at view, at_b)))
      | inr less ↦
          let test : (i == 48) ≡ false = ground (arith, w.fits) in
          let here : get_or child i 0 ≡ c = ground (arith, rw test at view, at_b) in
          (
            i,
            rw (index, test) refl,
            get_elem?-get_or child i (omega (arith, w.slots, w.fits)) ∙ ap some here,
            λ c' ne'.
                let w' = indexed_rewritten h child_index child w i c' less ne' in
                (
                  w',
                  child_at-node48 h child_index (set child i c') b lt w'
                      ∙ ap done (rw test (slot_same child i c' (omega (arith, w.slots, w.fits)))),
                  λ k lt' other.
                      child_at-node48 h child_index (set child i c') k lt' w'
                      ∙ ap done (indexed_other h child_index child w b k c' lt lt' other less)
                      ∙ sym (child_at-node48 h child_index child k lt' w),
                ),
          )
    ]
slot_lem (node256 h child) b c w lt at_b ne =
    let here : get_or child b 0 ≡ c = ground (arith, child_at-node256 h child b lt w, at_b) in
    (
      b,
      refl,
      get_elem?-get_or child b (omega (arith, w.slots)) ∙ ap some here,
      λ c' ne'.
          let w' : IsDirectNode h (set child b c') = record {
            slots = length-set child b c' ∙ w.slots;
          } in
          (
            w',
            child_at-node256 h (set child b c') b lt w'
                ∙ ap done (slot_same child b c' (omega (arith, w.slots))),
            λ k lt' other.
                child_at-node256 h (set child b c') k lt' w'
                ∙ ap done (slot_other child b k c' (omega (arith, w.slots)) other)
                ∙ sym (child_at-node256 h child k lt' w),
          ),
    )
