-- ===== src/Competitors/Art/Growth.antt =====
-- `insert` of a child into a node of every type, with its growth into the next type when it is full
-- (src/competitors/art.hpp).
use learned_secondary_index.Common.{
  ℕ, ◌≤◌, ◌<◌, ◌≡◌, ◌≢◌, refl, ap, ◌∙◌, sym, ltb, false, List, length, take, replicate, arith,
  dec_lt,
}
use learned_secondary_index.Common.Run.{done}
use learned_secondary_index.Common.ArrayLaws.{length-take, length-replicate}
use learned_secondary_index.Competitors.Art.Node.{
  Ptr, Header, Node, node4, node16, node48, node256, new_header,
}
use learned_secondary_index.Competitors.Art.Children.{
  insert_child, insert_node4, insert_node16, insert_node48, index_keys, grow_node4, grow_node16,
}
use learned_secondary_index.Competitors.Art.Search.{child_at}
use learned_secondary_index.Competitors.Art.Sorted.{assoc, NotIn, Holds-take, assoc-NotIn}
use learned_secondary_index.Competitors.Art.Indices.{index_keys_lem}
use learned_secondary_index.Competitors.Art.Contract.{
  IsSortedNode, IsNode, Inserts, same_children, same_length, child_at-node4, child_at-node16,
  child_at-node48, copy_prefix_lem,
}
use learned_secondary_index.Competitors.Art.Place.{
  insert_direct, insert_with_room4, insert_with_room16,
}
use learned_secondary_index.Competitors.Art.PlaceIndexed.{insert_with_room48}
use learned_secondary_index.Competitors.Art.Spread.{insert_full48}
use learned_secondary_index.Competitors.Art.Gather.{
  copied, copied_run, length-copied, take-copied, grown, grown_node, grown_child,
}

module _ (b c : ℕ) (byte : b < 256) (ne : c ≢ 0) where
  insert_full16 :
      (h : Header) (key : List ℕ) (child : List Ptr) (w : IsSortedNode 16 h key child)
      → h.count ≡ 16
      → Inserts (node16 h key child) b c (insert_node16 h key child b c)
  unfolding insert_node16 grow_node16
  insert_full16 h key child w full =
      let test : ltb h.count 16 ≡ false = ground arith in
      let le : h.count ≤ length child = omega (arith, w.slots) in
      let n : length (take h.count key) ≡ h.count =
        length-take h.count key (omega (arith, w.keys)) in
      let (array, keyed, size, index) =
        index_keys_lem key 0 (take h.count key) (replicate 256 48) (Holds-take key h.count)
          w.ascending (length-replicate {A = ℕ} 256 48) in
      let keyed' : index_keys h.count 0 key (replicate 256 48) ≡ done array = rw n at keyed in
      let (h', header, _, p) =
        copy_prefix_lem h new_header w.prefix (length-replicate {A = ℕ} 17 0) in
      let g : Header = record h' { count = h.count } in
      let child' = grown h key child w g refl p in
      let run : insert_node16 h key child b c ≡ insert_node48 g array child' b c =
        rw (test, copied_run child 48 h.count le (omega arith), keyed', header) refl in
      let w' = grown_node h key child w g refl p array size index in
      rw run (
        same_children b c byte ne (node16 h key child) (node48 g array child')
          (insert_node48 g array child' b c)
          (λ k lt.
            child_at-node16 h key child k w
            ∙ ap done (grown_child h key child w g refl p array size index k lt)
            ∙ sym (child_at-node48 g array child' k lt w'))
          (insert_with_room48 b c byte ne g array child' w' (omega arith)))

  insert_full4 :
      (h : Header) (key : List ℕ) (child : List Ptr) (w : IsSortedNode 4 h key child)
      → h.count ≡ 4
      → NotIn b (take h.count key)
      → Inserts (node4 h key child) b c (insert_node4 h key child b c)
  unfolding insert_node4 grow_node4
  insert_full4 h key child w full absent =
      let test : ltb h.count 4 ≡ false = ground arith in
      let le : h.count ≤ length child = omega (arith, w.slots) in
      let le' : 4 ≤ length key = omega (arith, w.keys) in
      let (h', header, count, p) =
        copy_prefix_lem h (record new_header { count = 4 }) w.prefix
          (length-replicate {A = ℕ} 17 0) in
      let key' = copied key 16 4 le' (omega arith) in
      let child' = copied child 16 h.count le (omega arith) in
      let run : insert_node4 h key child b c ≡ insert_node16 h' key' child' b c =
        rw
          (
            test,
            header,
            copied_run key 16 4 le' (omega arith),
            copied_run child 16 h.count le (omega arith),
          )
          refl in
      let same_count : h'.count ≡ h.count = count ∙ sym full in
      let same_keys : take h'.count key' ≡ take h.count key =
        rw (count, full) (take-copied key 16 4 le' (omega arith)) in
      let same_slots : take h'.count child' ≡ take h.count child =
        rw same_count (take-copied child 16 h.count le (omega arith)) in
      let w' : IsSortedNode 16 h' key' child' = record {
        fits = omega arith;
        prefix = p;
        keys = length-copied key 16 4 le' (omega arith);
        slots = length-copied child 16 h.count le (omega arith);
        ascending = rw same_keys w.ascending;
        nonnull = rw same_slots w.nonnull;
      } in
      rw run (
        same_children b c byte ne (node4 h key child) (node16 h' key' child')
          (insert_node16 h' key' child' b c)
          (λ k lt.
            child_at-node4 h key child k w
            ∙ rw (same_keys, same_slots) at (sym (child_at-node16 h' key' child' k w')))
          (insert_with_room16 b c byte ne h' key' child' w' (omega arith) (rw same_keys absent)))

  -- An insertion of a child under a byte that has none returns for a well-formed node of every
  -- type, full or not, a well-formed node in which `findChild` finds the new child under the byte
  -- and under every other byte the child that was there. Well formed means that the arrays have
  -- the lengths of the type, that a Node4 or Node16 has ascending bytes as keys and no null child
  -- in use, and that a Node48 uses its first slots, with no null child among them and the rest
  -- null, and every index is below the count or the marker, and no two bytes share a slot. The
  -- child is not null.
  pub insert_child-child_at :
      (node : Node)
      → IsNode node
      → child_at node b ≡ done 0
      → Inserts node b c (insert_child node b c)
  unfolding insert_child
  insert_child-child_at (node4 h key child) w free =
      let same = child_at-node4 h key child b w in
      let missing : assoc (take h.count key) (take h.count child) b ≡ 0 =
        ground (arith, same, free) in
      let absent =
        assoc-NotIn (take h.count key) (take h.count child) b (same_length h key child 4 w)
          w.nonnull missing in
      elim (dec_lt h.count 4) [
        | yes room ↦ insert_with_room4 b c byte ne h key child w room absent
        | no full ↦ insert_full4 h key child w (omega (arith, w.fits)) absent
      ]
  insert_child-child_at (node16 h key child) w free =
      let same = child_at-node16 h key child b w in
      let missing : assoc (take h.count key) (take h.count child) b ≡ 0 =
        ground (arith, same, free) in
      let absent =
        assoc-NotIn (take h.count key) (take h.count child) b (same_length h key child 16 w)
          w.nonnull missing in
      elim (dec_lt h.count 16) [
        | yes room ↦ insert_with_room16 b c byte ne h key child w room absent
        | no full ↦ insert_full16 h key child w (omega (arith, w.fits))
      ]
  insert_child-child_at (node48 h child_index child) w free = elim (dec_lt h.count 48) [
    | yes room ↦ insert_with_room48 b c byte ne h child_index child w room
    | no full ↦ insert_full48 b c byte ne h child_index child w (omega (arith, w.fits))
  ]
  insert_child-child_at (node256 h child) w free = insert_direct b c byte ne h child w
