-- ===== src/Competitors/Art/Place.antt =====
-- The nodes with room: what `insertNode4` to `insertNode256` make of them (src/competitors/art.hpp).
use learned_secondary_index.Common.{
  ℕ, ◌≤◌, ◌<◌, ◌≡◌, ◌≢◌, refl, ap, ◌∙◌, ltb, true, List, get_or, take, arith,
}
use learned_secondary_index.Common.Run.{done}
use learned_secondary_index.Common.Arrays.{set}
use learned_secondary_index.Common.ArrayLaws.{length-set, get_or-set, at-get_or, write_lem}
use learned_secondary_index.Competitors.Art.Node.{Ptr, Header, node4, node16, node256}
use learned_secondary_index.Competitors.Art.Children.{
  find_child, insert_node4, insert_node16, insert_node256, insert_sorted, place_node4, place_node16,
  incr_count,
}
use learned_secondary_index.Competitors.Art.Search.{child_at}
use learned_secondary_index.Competitors.Art.Sorted.{assoc, NotIn}
use learned_secondary_index.Competitors.Art.Contract.{
  IsSortedNode, IsDirectNode, Inserts, child_at-node4, child_at-node16,
}
use learned_secondary_index.Competitors.Art.Room.{
  insert_sorted_lem, key', child', sorted_result, sorted_child,
}

module _ (b c : ℕ) (byte : b < 256) (ne : c ≢ 0) where
  pub insert_direct :
      (h : Header) (child : List Ptr)
      → IsDirectNode h child
      → Inserts (node256 h child) b c (insert_node256 h child b c)
  unfolding insert_node256 child_at find_child
  insert_direct h child w = (
    node256 (incr_count h) (set child b c),
    rw (write_lem child b c (omega (arith, w.slots))) refl,
    record { slots = length-set child b c ∙ w.slots },
    λ k lt. (
      get_or child k 0,
      at-get_or child k 0 (omega (arith, w.slots)),
      at-get_or (set child b c) k 0 (omega (arith, w.slots, length-set child b c))
          ∙ ap done (get_or-set child b k c 0 (omega (arith, w.slots))),
    ),
  )

  place4_lem :
      (h : Header) (key key' : List ℕ) (child child' : List Ptr)
      → h.count < 4
      → insert_sorted h key child b c ≡ done (key', child')
      → insert_node4 h key child b c ≡ done (node4 (incr_count h) key' child')
  unfolding insert_node4 place_node4
  place4_lem h key key' child child' room run =
      let test : ltb h.count 4 ≡ true = ground arith in rw (test, run) refl

  pub insert_with_room4 :
      (h : Header) (key : List ℕ) (child : List Ptr) (w : IsSortedNode 4 h key child)
      → h.count < 4
      → NotIn b (take h.count key)
      → Inserts (node4 h key child) b c (insert_node4 h key child b c)
  insert_with_room4 h key child w room absent =
      let small : 4 ≤ 16 = omega arith in
      let run = insert_sorted_lem 4 h key child w room small b c byte ne absent in
      let w' = sorted_result 4 h key child w room small b c byte ne absent in
      let view = sorted_child 4 h key child w room small b c byte ne absent in
      (
        node4 (incr_count h) (key' 4 h key child w room small b c byte ne absent)
            (child' 4 h key child w room small b c byte ne absent),
        place4_lem h key _ child _ room run,
        w',
        λ k lt. (
          assoc (take h.count key) (take h.count child) k,
          child_at-node4 h key child k w,
          child_at-node4 _ _ _ k w' ∙ ap done (view k),
        ),
      )

  place16_lem :
      (h : Header) (key key' : List ℕ) (child child' : List Ptr)
      → h.count < 16
      → insert_sorted h key child b c ≡ done (key', child')
      → insert_node16 h key child b c ≡ done (node16 (incr_count h) key' child')
  unfolding insert_node16 place_node16
  place16_lem h key key' child child' room run =
      let test : ltb h.count 16 ≡ true = ground arith in rw (test, run) refl

  pub insert_with_room16 :
      (h : Header) (key : List ℕ) (child : List Ptr) (w : IsSortedNode 16 h key child)
      → h.count < 16
      → NotIn b (take h.count key)
      → Inserts (node16 h key child) b c (insert_node16 h key child b c)
  insert_with_room16 h key child w room absent =
      let small : 16 ≤ 16 = omega arith in
      let run = insert_sorted_lem 16 h key child w room small b c byte ne absent in
      let w' = sorted_result 16 h key child w room small b c byte ne absent in
      let view = sorted_child 16 h key child w room small b c byte ne absent in
      (
        node16 (incr_count h) (key' 16 h key child w room small b c byte ne absent)
            (child' 16 h key child w room small b c byte ne absent),
        place16_lem h key _ child _ room run,
        w',
        λ k lt. (
          assoc (take h.count key) (take h.count child) k,
          child_at-node16 h key child k w,
          child_at-node16 _ _ _ k w' ∙ ap done (view k),
        ),
      )
