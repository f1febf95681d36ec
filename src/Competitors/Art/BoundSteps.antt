-- ===== src/Competitors/Art/BoundSteps.antt =====
-- One round of the loop of `bound` (src/competitors/art.hpp) at a leaf and at a node.
use learned_secondary_index.Common.{
  ℕ, suc, ◌+◌, ◌<◌, ◌≡◌, ◌≢◌, refl, ltb, leb, ◌==◌, true, false, some, List, length, get_elem?,
  arith,
}
use learned_secondary_index.Common.Run.{done}
use learned_secondary_index.Common.Arrays.{at, set}
use learned_secondary_index.Common.ArrayLaws.{length-set, get_elem?-set}
use learned_secondary_index.Competitors.Art.Node.{is_leaf, get_leaf_value, Header, Node, header}
use learned_secondary_index.Competitors.Art.Heap.{Nodes, load}
use learned_secondary_index.Competitors.Art.Iterator.{IteratorEntry, top, set_top, next}
use learned_secondary_index.Competitors.Art.Prefix.{prefix_mismatch_within}
use learned_secondary_index.Competitors.Art.Search.{
  bound_leaf, bound_prefix, bound_child, bound_loop,
}
use learned_secondary_index.Competitors.Art.Position.{standing}
use learned_secondary_index.Competitors.Art.Steps.{suc-nonzero, last_index}

module _ (fuel : ℕ) (nodes : Nodes) (dataset key : List ℕ) (value n : ℕ)
    (stack : List IteratorEntry) (lt : n < length stack) where
  abbrev pub place : (p pos : ℕ) → List IteratorEntry
  place p pos = set stack n (record { node = p; pos = pos })

  -- a difference in the compressed path
  module _ (e : IteratorEntry) (here : get_elem? stack n ≡ some e) (h : Header) (d i x y : ℕ)
      (read : at h.prefix i ≡ done x) (read' : at key (d + i) ≡ done y) where
    pub bound_prefix-less :
        x < y
        → bound_prefix fuel nodes dataset key 8 h d i (standing value (suc n) stack)
          ≡ next fuel nodes (standing value n stack)
    unfolding bound_prefix
    bound_prefix-less less =
        let test : ltb x y ≡ true = ground arith in rw (read, read', test, last_index n) refl

    pub bound_prefix-more :
        y < x
        → bound_prefix fuel nodes dataset key 8 h d i (standing value (suc n) stack)
          ≡ next fuel nodes (standing value (suc n) (place e.node 0))
    unfolding bound_prefix top set_top
    bound_prefix-more more =
        let test : ltb x y ≡ false = ground arith in
        let inside : ltb n (length stack) ≡ true = ground arith in
        rw (read, read', test, suc-nonzero n, last_index n, here, inside) refl

  module _ (rounds : ℕ) (p d : ℕ) (old : IteratorEntry) (here : get_elem? stack n ≡ some old) where
    pub bound_loop-leaf :
        is_leaf p ≡ true
        → bound_loop fuel nodes dataset key 8 (suc rounds) true p d (standing value n stack)
          ≡ bound_leaf fuel nodes dataset key 8 true p d
              (standing (get_leaf_value p) (suc n) (place p old.pos))
    unfolding bound_loop
    bound_loop-leaf leaf =
        let inside : ltb n (length stack) ≡ true = ground arith in
        let deeper : n + 1 ≡ suc n = omega arith in rw (here, inside, leaf, deeper) refl

    module _ (node : Node) (inner : is_leaf p ≡ false) (there : load nodes p ≡ done node) where
      pub bound_loop-prefix :
          (i : ℕ)
          → prefix_mismatch_within fuel nodes dataset p key d 8 ≡ done i
          → i < (header node).prefix_length
          → bound_loop fuel nodes dataset key 8 (suc rounds) true p d (standing value n stack)
            ≡ bound_prefix fuel nodes dataset key 8
                (header node)
                d
                i
                (standing value (suc n) (place p old.pos))
      unfolding bound_loop
      bound_loop-prefix i run less =
          let inside : ltb n (length stack) ≡ true = ground arith in
          let deeper : n + 1 ≡ suc n = omega arith in
          let differ : (i == (header node).prefix_length) ≡ false = ground arith in
          rw (here, inside, inner, there, run, differ, deeper) refl

      module _ (c pos b : ℕ)
          (run : prefix_mismatch_within fuel nodes dataset p key d 8
            ≡ done (header node).prefix_length)
          (within : d + (header node).prefix_length < 8)
          (read : at key (d + (header node).prefix_length) ≡ done b)
          (child : bound_child node b ≡ done (c, pos)) where
        pub bound_loop-stay :
            c ≡ 0
            → bound_loop fuel nodes dataset key 8 (suc rounds) true p d (standing value n stack)
              ≡ next fuel nodes (
                  standing value (suc n) (set (place p old.pos) n (record { node = p; pos = pos })))
        unfolding bound_loop top set_top
        bound_loop-stay null =
            let inside : ltb n (length stack) ≡ true = ground arith in
            let inside' : ltb n (length (place p old.pos)) ≡ true =
              rw (length-set stack n (record { node = p; pos = old.pos })) (ground arith) in
            let deeper : n + 1 ≡ suc n = omega arith in
            let same : ((header node).prefix_length == (header node).prefix_length) ≡ true =
              ground arith in
            let part : leb 8 (d + (header node).prefix_length) ≡ false = ground arith in
            let last = get_elem?-set stack n (record { node = p; pos = old.pos }) lt in
            rw
              (
                here,
                inside,
                inner,
                there,
                run,
                same,
                part,
                read,
                child,
                deeper,
                suc-nonzero n,
                last_index n,
                last,
                inside',
                null,
              )
              refl

        pub bound_loop-go :
            c ≢ 0
            → bound_loop fuel nodes dataset key 8 (suc rounds) true p d (standing value n stack)
              ≡ bound_loop fuel nodes dataset key 8 rounds true c
                  (d + (header node).prefix_length + 1)
                  (standing value
                    (suc n)
                    (set (place p old.pos) n (record { node = p; pos = pos + 1 })))
        unfolding bound_loop top set_top
        bound_loop-go some_child =
            let inside : ltb n (length stack) ≡ true = ground arith in
            let inside' : ltb n (length (place p old.pos)) ≡ true =
              rw (length-set stack n (record { node = p; pos = old.pos })) (ground arith) in
            let deeper : n + 1 ≡ suc n = omega arith in
            let same : ((header node).prefix_length == (header node).prefix_length) ≡ true =
              ground arith in
            let part : leb 8 (d + (header node).prefix_length) ≡ false = ground arith in
            let last = get_elem?-set stack n (record { node = p; pos = old.pos }) lt in
            let test : (c == 0) ≡ false = ground arith in
            rw
              (
                here,
                inside,
                inner,
                there,
                run,
                same,
                part,
                read,
                child,
                deeper,
                suc-nonzero n,
                last_index n,
                last,
                inside',
                test,
              )
              refl
