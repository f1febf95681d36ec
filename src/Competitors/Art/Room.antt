-- ===== src/Competitors/Art/Room.antt =====
-- `insertNode4` and `insertNode16` on the keys and children of a node with room (src/competitors/art.hpp).
use learned_secondary_index.Competitors.Art.Children
use learned_secondary_index.Common.{
  ℕ, suc, ◌-◌, ◌≤◌, ◌<◌, ◌≡◌, ◌≢◌, refl, ap, ◌∙◌, ◌==◌, if◌then◌else◌, List, ◌++◌, length, take,
  drop, arith, length-append,
}
use learned_secondary_index.Common.Run.{done}
use learned_secondary_index.Common.ArrayLaws.{
  insert_at, length-insert_at, length-take, length-drop, take-append, memmove_lem, write-shifted,
}
use native.Mathlib.Nat.{zero-add}
use learned_secondary_index.Competitors.Art.Node.{Ptr, Header}
use learned_secondary_index.Competitors.Art.Children.{
  find_child, insert_child, insert_node4, insert_node16, insert_node48, insert_node256,
  insert_sorted, index_keys, place_node4, place_node16, place_node48, grow_node4, grow_node16,
  grow_node48, spread_children, free_slot, copy_prefix, incr_count, equal_bits,
}
use learned_secondary_index.Competitors.Art.Sorted.{
  assoc, NotIn, place_of, Holds-take, place_of-le, insert_position_lem, assoc-insert_at,
  Ascending-insert_at, NonNull-insert_at,
}
use learned_secondary_index.Competitors.Art.Contract.{IsSortedNode, same_length, incr_lem}

-- `insertNode4` and `insertNode16` with room
module _ (cap : ℕ) (h : Header) (key : List ℕ) (child : List Ptr) (w : IsSortedNode cap h key child)
    (room : h.count < cap) (small : cap ≤ 16) (b c : ℕ) (byte : b < 256) (ne : c ≢ 0)
    (absent : NotIn b (take h.count key)) where
  pub pos : ℕ
  pos = place_of b (take h.count key)

  pub insert_sorted_lem :
      insert_sorted h key child b c
      ≡ done (
        insert_at pos b (take h.count key) ++ drop (suc h.count) key,
        insert_at pos c (take h.count child) ++ drop (suc h.count) child,
      )
  unfolding insert_sorted pos
  insert_sorted_lem =
      let n : length (take h.count key) ≡ h.count =
        length-take h.count key (omega (arith, w.fits, w.keys)) in
      let at : Children.insert_position h.count 0 key b ≡ done pos =
        rw (n, zero-add) at
          (insert_position_lem key b 0 (take h.count key) (Holds-take key h.count)) in
      let le : pos ≤ h.count = omega (arith, place_of-le b (take h.count key)) in
      let more_keys : h.count < length key = omega (arith, w.keys) in
      let more_slots : h.count < length child = omega (arith, w.slots) in
      rw
        (
          at,
          memmove_lem key pos h.count le more_keys,
          memmove_lem child pos h.count le more_slots,
          write-shifted key pos h.count b le more_keys,
          write-shifted child pos h.count c le more_slots,
        )
        refl

  abbrev pub key' : List ℕ
  key' = insert_at pos b (take h.count key) ++ drop (suc h.count) key

  abbrev pub child' : List Ptr
  child' = insert_at pos c (take h.count child) ++ drop (suc h.count) child

  inserted :
      (xs : List ℕ) (x : ℕ)
      → h.count ≤ length xs
      → take (suc h.count) (insert_at pos x (take h.count xs) ++ drop (suc h.count) xs)
        ≡ insert_at pos x (take h.count xs)
  inserted xs x le =
      let n : length (insert_at pos x (take h.count xs)) ≡ suc h.count =
        length-insert_at pos x (take h.count xs) ∙ ap suc (length-take h.count xs le) in
      rw n at (take-append (insert_at pos x (take h.count xs)) (drop (suc h.count) xs))

  length-inserted :
      (xs : List ℕ) (x : ℕ)
      → length xs ≡ cap
      → length (insert_at pos x (take h.count xs) ++ drop (suc h.count) xs) ≡ cap
  length-inserted xs x e =
      let whole = length-append (insert_at pos x (take h.count xs)) (drop (suc h.count) xs) in
      let n : length (insert_at pos x (take h.count xs)) ≡ suc h.count =
        length-insert_at pos x (take h.count xs) ∙ ap suc (length-take h.count xs (omega arith)) in
      let m : length (drop (suc h.count) xs) ≡ length xs - suc h.count =
        length-drop (suc h.count) xs in
      rw (whole, n, m) (omega arith)

  used_keys : take (incr_count h).count key' ≡ insert_at pos b (take h.count key)
  used_keys = rw (incr_lem h (omega arith)) (inserted key b (omega (arith, w.keys)))

  used_children : take (incr_count h).count child' ≡ insert_at pos c (take h.count child)
  used_children = rw (incr_lem h (omega arith)) (inserted child c (omega (arith, w.slots)))

  pub sorted_result : IsSortedNode cap (incr_count h) key' child'
  unfolding pos
  sorted_result = record {
    fits = omega (arith, incr_lem h (omega arith));
    prefix = w.prefix;
    keys = length-inserted key b w.keys;
    slots = length-inserted child c w.slots;
    ascending = rw used_keys (Ascending-insert_at b (take h.count key) byte absent w.ascending);
    nonnull = rw used_children (NonNull-insert_at pos c (take h.count child) ne w.nonnull);
  }

  pub sorted_child :
      (k : ℕ)
      → assoc (take (incr_count h).count key') (take (incr_count h).count child') k
        ≡ (if b == k then c else assoc (take h.count key) (take h.count child) k)
  unfolding pos
  sorted_child k =
      rw (used_keys, used_children)
        (assoc-insert_at pos b c k (take h.count key) (take h.count child)
          (same_length h key child cap w) (place_of-le b (take h.count key)) absent)
