-- ===== src/Competitors/Art/Search.antt =====
-- The searches of src/competitors/art.hpp. `fuel` bounds the levels that a search goes down, and the
-- rounds of an iterator's `next`.
use learned_secondary_index.Common.{
  ℕ, zero, suc, ◌+◌, ◌-◌, ltb, leb, ◌==◌, not, ◌||◌, if◌then◌else◌, Bool, true, false, none, some,
  List,
}
use learned_secondary_index.Common.Run.{Run, done, out_of_fuel, ◌>>=◌}
use learned_secondary_index.Common.Arrays.{at, write}
use learned_secondary_index.Competitors.Art.Node.{
  Ptr, is_leaf, get_leaf_value, max_prefix_length, empty_marker, Header, Node, node4, node16,
  node48, node256, header, children,
}
use learned_secondary_index.Competitors.Art.Children.{find_child}
use learned_secondary_index.Competitors.Art.Heap.{Nodes, load, load_key}
use learned_secondary_index.Competitors.Art.Iterator.{Iterator, top, set_top, next, minimum_it}
use learned_secondary_index.Competitors.Art.Prefix.{
  compare_bytes, prefix_mismatch, prefix_mismatch_within, leaf_matches, equal_from,
}

-- `*findChild(node, byte)`
unfoldable pub child_at : Node → (byte : ℕ) → Run Ptr
child_at node byte = do
  found ← find_child node byte
  elim found [ none ↦ done 0 | some i ↦ at (children node) i ]

-- where the loop over the keys of a Node4 or Node16 in `bound` stops, with the child if it is there
unfoldable pub bound_key :
    (rounds pos : ℕ) → (key : List ℕ) (child : List Ptr) (byte : ℕ) → Run (Ptr × ℕ)
bound_key zero pos key child byte = done (0, pos)
bound_key (suc rounds) pos key child byte =
    let rest = bound_key rounds (pos + 1) key child byte in
    do
      k ← at key pos
      if k == byte
          then (do c ← at child pos; done (c, pos))
          else (if ltb byte k then done (0, pos) else rest)

-- the `switch` of `bound`: the child to go on with, or null, and the position in the node
unfoldable pub bound_child : Node → (byte : ℕ) → Run (Ptr × ℕ)
unfolding bound_key
bound_child (node4 h key child) byte = bound_key h.count 0 key child byte
bound_child (node16 h key child) byte = bound_key h.count 0 key child byte
bound_child (node48 h child_index child) byte = do
  i ← at child_index byte
  if i == empty_marker then done (0, byte) else (do c ← at child i; done (c, byte))
bound_child (node256 h child) byte = do c ← at child byte; done (c, byte)

module _ (fuel : ℕ) (nodes : Nodes) (dataset : List ℕ) (key : List ℕ) (key_length : ℕ) where
  -- `it.depth--; return it.next()`
  abbrev pop_next : Iterator → Run (Bool × Iterator)
  pop_next it = next fuel nodes (record it { depth = it.depth - 1 })

  -- `return lower || it.next()`
  abbrev equal_leaf : Bool → Iterator → Run (Bool × Iterator)
  equal_leaf lower it = if lower then done (true, it) else next fuel nodes it

  -- `bound` at a leaf
  unfoldable pub bound_leaf : (lower : Bool) → Ptr → (depth : ℕ) → Iterator → Run (Bool × Iterator)
  bound_leaf lower p depth it =
      let check = (do
        leaf_key ← load_key dataset (get_leaf_value p)
        i ← compare_bytes (key_length - depth) 0 leaf_key depth key depth
        let differ = (do
          x ← at leaf_key (depth + i)
          y ← at key (depth + i)
          if ltb x y then pop_next it else done (true, it))
        if i == key_length - depth then equal_leaf lower it else differ) in
      if depth == key_length then equal_leaf lower it else check

  -- `bound` at a node whose compressed path differs from the key at `mismatch_pos`
  unfoldable pub bound_prefix : Header → (depth mismatch_pos : ℕ) → Iterator → Run (Bool × Iterator)
  bound_prefix h depth mismatch_pos it = do
    x ← at h.prefix mismatch_pos
    y ← at key (depth + mismatch_pos)
    let first = (do e ← top it; it' ← set_top it (record e { pos = 0 }); next fuel nodes it')
    if ltb x y then pop_next it else first

  -- `while (true)` of `bound`: the entry of the node is written, its position is kept
  unfoldable pub bound_loop :
      (rounds : ℕ) → (lower : Bool) → Ptr → (depth : ℕ) → Iterator → Run (Bool × Iterator)
  unfolding bound_leaf bound_prefix bound_child
  bound_loop zero lower p depth it = out_of_fuel
  bound_loop (suc rounds) lower p depth it = do
    old ← at it.stack it.depth
    stack ← write it.stack it.depth (record old { node = p })
    let it = record it { stack = stack; depth = it.depth + 1 }
    let inner = (do
      node ← load nodes p
      mismatch_pos ← prefix_mismatch_within fuel nodes dataset p key depth key_length
      let depth' = depth + (header node).prefix_length
      let down = (do
        byte ← at key depth'
        (c, pos) ← bound_child node byte
        e ← top it
        stay ← set_top it (record e { pos = pos })
        go ← set_top it (record e { pos = pos + 1 })
        let deeper = bound_loop rounds lower c (depth' + 1) go
        if c == 0 then next fuel nodes stay else deeper)
      let first = (do
        it' ← minimum_it fuel nodes p (record it { depth = it.depth - 1 })
        done (true, it'))
      if not (mismatch_pos == (header node).prefix_length)
          then bound_prefix (header node) depth mismatch_pos it
          else (if leb key_length depth' then first else down))
    if is_leaf p then bound_leaf lower p depth (record it { value = get_leaf_value p }) else inner

  unfoldable pub bound : (lower : Bool) → Ptr → Iterator → Run (Bool × Iterator)
  unfolding bound_loop
  bound lower p it =
      let start = record it { depth = 0 } in
      if p == 0 then done (false, start) else bound_loop fuel lower p 0 start

  -- `lookupPrefix`: the recursive call passes the depth on as it is
  unfoldable pub lookup_prefix : (rounds : ℕ) → Ptr → (depth : ℕ) → Run Ptr
  lookup_prefix zero p depth = out_of_fuel
  lookup_prefix (suc rounds) p depth =
      let leaf = (do
        matches ← leaf_matches nodes dataset p key key_length depth
        done (if matches then p else 0)) in
      let inner = (do
        node ← load nodes p
        let deeper = (do byte ← at key depth; c ← child_at node byte; lookup_prefix rounds c depth)
        let here = (do
          pos ← prefix_mismatch_within fuel nodes dataset p key depth key_length
          done (if pos == key_length - depth then p else 0))
        if ltb (depth + (header node).prefix_length) key_length then deeper else here) in
      if p == 0 then done 0 else (if is_leaf p then leaf else inner)

  unfoldable pub lookup_prefix_min : Ptr → Iterator → Run (Bool × Iterator)
  unfolding lookup_prefix
  lookup_prefix_min root it = do
    p ← lookup_prefix fuel root 0
    let found = (do
      stack ← write it.stack 0 (record { node = p; pos = 0 })
      let it' = record it { depth = 1; stack = stack }
      if is_leaf p
          then done (true, record it' { value = get_leaf_value p })
          else next fuel nodes it')
    if p == 0 then done (false, it) else found

  -- `lookup` of a node, the optimistic version
  unfoldable pub lookup_node : (rounds : ℕ) → (skipped_prefix : Bool) → Ptr → (depth : ℕ) → Run Ptr
  unfolding child_at
  lookup_node zero skipped_prefix p depth = out_of_fuel
  lookup_node (suc rounds) skipped_prefix p depth =
      let from = if skipped_prefix then 0 else depth in
      let check = (do
        leaf_key ← load_key dataset (get_leaf_value p)
        same ← equal_from (key_length - from) from leaf_key key
        done (if same then p else 0)) in
      let leaf = if depth == key_length then done p else check in
      let inner = (do
        node ← load nodes p
        let h = header node
        let long = not (ltb h.prefix_length max_prefix_length)
        let depth' = depth + h.prefix_length
        pos ←
            (if long
              then done h.prefix_length
              else compare_bytes h.prefix_length 0 key depth h.prefix 0)
        let deeper = (do
          byte ← at key depth'
          c ← child_at node byte
          lookup_node rounds (skipped_prefix || long) c (depth' + 1))
        if pos == h.prefix_length then deeper else done 0) in
      if p == 0 then done 0 else (if is_leaf p then leaf else inner)

  unfoldable pub lookup_pessimistic : (rounds : ℕ) → Ptr → (depth : ℕ) → Run Ptr
  unfolding child_at
  lookup_pessimistic zero p depth = out_of_fuel
  lookup_pessimistic (suc rounds) p depth =
      let leaf = (do
        matches ← leaf_matches nodes dataset p key key_length depth
        done (if matches then p else 0)) in
      let inner = (do
        node ← load nodes p
        pos ← prefix_mismatch fuel nodes dataset p key depth
        let depth' = depth + (header node).prefix_length
        let deeper = (do
          byte ← at key depth'
          c ← child_at node byte
          lookup_pessimistic rounds c (depth' + 1))
        if pos == (header node).prefix_length then deeper else done 0) in
      if p == 0 then done 0 else (if is_leaf p then leaf else inner)
