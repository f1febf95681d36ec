-- ===== src/Competitors/Art/Erase.antt =====
-- `erase` (src/competitors/art.hpp): a leaf is taken out of the tree, and its node may shrink into the
-- type below. Nothing in the repository calls it.
use learned_secondary_index.Common.{
  ℕ, zero, suc, ◌+◌, ◌-◌, ◌%◌, ◌^◌, ltb, ◌==◌, if◌then◌else◌, false, none, some, List, min,
  replicate,
}
use learned_secondary_index.Common.Run.{Run, done, out_of_fuel, ◌>>=◌}
use learned_secondary_index.Common.Arrays.{at, write, memmove, memcpy}
use learned_secondary_index.Competitors.Art.Node.{
  Ptr, is_leaf, max_prefix_length, empty_marker, Header, Node, header, with_header, new_header,
  node4, node16, node48, node256,
}
use learned_secondary_index.Competitors.Art.Children.{find_child, copy_prefix, incr_count}
use learned_secondary_index.Competitors.Art.Heap.{
  load, store, Tree, Ref, slot, null_node, read_ref, write_ref,
}
use learned_secondary_index.Competitors.Art.Prefix.{prefix_mismatch, leaf_matches}
use learned_secondary_index.Competitors.Art.Insert.{replace}

-- `count--` of a `uint16_t`
abbrev pub decr_count : Header → Header
decr_count h = record h { count = (h.count + (2 ^ 16 - 1)) % 2 ^ 16 }

-- both calls of `memmove` in `eraseNode4` and `eraseNode16`
unfoldable pub close_gap :
    Header → (key : List ℕ) (child : List Ptr) (pos : ℕ) → Run (List ℕ × List Ptr)
close_gap h key child pos = do
  key' ← memmove key pos (pos + 1) (h.count - pos - 1)
  child' ← memmove child pos (pos + 1) (h.count - pos - 1)
  done (key', child')

-- The prefix of a node with one child, the byte of that child and the child's prefix, put together
-- as far as they fit.
unfoldable pub joined_prefix : Header → (byte : ℕ) → Header → Run Header
joined_prefix h byte below =
    let l1 = h.prefix_length in
    let with_byte = (do prefix ← write h.prefix l1 byte; done (prefix, l1 + 1)) in
    do
      (prefix, l2) ← (if ltb l1 max_prefix_length then with_byte else done (h.prefix, l1))
      let n = min below.prefix_length (max_prefix_length - l2)
      let with_below = (do prefix' ← memcpy prefix l2 below.prefix 0 n; done (prefix', l2 + n))
      (prefix', l3) ← (if ltb l2 max_prefix_length then with_below else done (prefix, l2))
      stored ← memcpy below.prefix 0 prefix' 0 (min l3 max_prefix_length)
      done (record below {
        prefix_length = below.prefix_length + (h.prefix_length + 1);
        prefix = stored;
      })

unfoldable pub erase_node16 : Header → (key : List ℕ) (child : List Ptr) (pos : ℕ) → Run Node
unfolding close_gap
erase_node16 h key child pos = do
  (key', child') ← close_gap h key child pos
  let h' = decr_count h
  let shrink = (do
    g ← copy_prefix h' (record new_header { count = 4 })
    key4 ← memcpy (replicate 4 0) 0 key' 0 4
    child4 ← memcpy (replicate 4 0) 0 child' 0 4
    done (node4 g key4 child4))
  if h'.count == 3 then shrink else done (node16 h' key' child')

-- the loop of `eraseNode48` over the indices
unfoldable pub gather_indexed :
    (rounds b : ℕ)
    → (child_index : List ℕ) (child : List Ptr) → Header
    → (key16 : List ℕ) (child16 : List Ptr) → Run Node
gather_indexed zero b child_index child h key16 child16 = done (node16 h key16 child16)
gather_indexed (suc rounds) b child_index child h key16 child16 = do
  index ← at child_index b
  let skip = gather_indexed rounds (b + 1) child_index child h key16 child16
  let take_in = (do
    key' ← write key16 h.count b
    c ← at child index
    child' ← write child16 h.count c
    gather_indexed rounds (b + 1) child_index child (incr_count h) key' child')
  if index == empty_marker then skip else take_in

unfoldable pub erase_node48 :
    Header → (child_index : List ℕ) (child : List Ptr) (byte : ℕ) → Run Node
unfolding gather_indexed
erase_node48 h child_index child byte = do
  index ← at child_index byte
  child' ← write child index 0
  child_index' ← write child_index byte empty_marker
  let h' = decr_count h
  let shrink = (do
    g ← copy_prefix h' new_header
    gather_indexed 256 0 child_index' child' g (replicate 16 0) (replicate 16 0))
  if h'.count == 12 then shrink else done (node48 h' child_index' child')

-- the loop of `eraseNode256` over the children
unfoldable pub gather_direct :
    (rounds b : ℕ)
    → (child : List Ptr) → Header
    → (child_index : List ℕ) (child48 : List Ptr) → Run Node
gather_direct zero b child h child_index child48 = done (node48 h child_index child48)
gather_direct (suc rounds) b child h child_index child48 = do
  c ← at child b
  let skip = gather_direct rounds (b + 1) child h child_index child48
  let take_in = (do
    index' ← write child_index b h.count
    child' ← write child48 h.count c
    gather_direct rounds (b + 1) child (incr_count h) index' child')
  if c == 0 then skip else take_in

unfoldable pub erase_node256 : Header → (child : List Ptr) (byte : ℕ) → Run Node
unfolding gather_direct
erase_node256 h child byte = do
  child' ← write child byte 0
  let h' = decr_count h
  let shrink = (do
    g ← copy_prefix h' new_header
    gather_direct 256 0 child' g (replicate 256 empty_marker) (replicate 48 0))
  if h'.count == 37 then shrink else done (node256 h' child')

-- `eraseNode4` of the node at `p`: with one child left, that child takes its place
unfoldable pub erase_node4 :
    Tree → Ref → Ptr → Header → (key : List ℕ) (child : List Ptr) (pos : ℕ) → Run Tree
unfolding close_gap joined_prefix
erase_node4 t ref p h key child pos = do
  (key', child') ← close_gap h key child pos
  let h' = decr_count h
  let keep = (do
    nodes ← store t.nodes p (some (node4 h' key' child'))
    done (record t { nodes = nodes }))
  let collapse = (do
    c ← at child' 0
    byte ← at key' 0
    let join = (do
      below ← load t.nodes c
      joined ← joined_prefix h' byte (header below)
      store t.nodes c (some (with_header below joined)))
    nodes ← (if is_leaf c then done t.nodes else join)
    t' ← write_ref (record t { nodes = nodes }) ref c
    nodes' ← store t'.nodes p none
    done (record t' { nodes = nodes' }))
  if h'.count == 1 then collapse else keep

-- the `switch` of `erase`, for the child in slot `pos` with the key byte `byte`
unfoldable pub erase_child : Tree → Ref → Ptr → Node → (pos byte : ℕ) → Run Tree
unfolding erase_node4 erase_node16 erase_node48 erase_node256 replace
erase_child t ref p (node4 h key child) pos byte = erase_node4 t ref p h key child pos
erase_child t ref p (node16 h key child) pos byte = do
  node ← erase_node16 h key child pos
  replace t ref p ((decr_count h).count == 3) node
erase_child t ref p (node48 h child_index child) pos byte = do
  node ← erase_node48 h child_index child byte
  replace t ref p ((decr_count h).count == 12) node
erase_child t ref p (node256 h child) pos byte = do
  node ← erase_node256 h child byte
  replace t ref p ((decr_count h).count == 37) node

module _ (dataset : List ℕ) (key : List ℕ) (key_length : ℕ) where
  unfoldable pub erase : (fuel : ℕ) → Tree → Ptr → Ref → (depth : ℕ) → Run Tree
  unfolding erase_child
  erase zero t p ref depth = out_of_fuel
  erase (suc fuel) t p ref depth =
      let leaf = (do
        matches ← leaf_matches t.nodes dataset p key key_length depth
        if matches then write_ref t ref 0 else done t) in
      let inner = (do
        node ← load t.nodes p
        let h = header node
        mismatch_pos ←
            (if h.prefix_length == 0
              then done 0
              else prefix_mismatch fuel t.nodes dataset p key depth)
        let depth' = depth + h.prefix_length
        let below = (do
          byte ← at key depth'
          found ← find_child node byte
          let ref' : Ref = elim found [ none ↦ null_node | some i ↦ slot p i ]
          let pos : ℕ = elim found [ none ↦ 0 | some i ↦ i ]
          child ← read_ref t ref'
          matches ←
              (if is_leaf child
                then leaf_matches t.nodes dataset child key key_length depth'
                else done false)
          let deeper = erase fuel t child ref' (depth' + 1)
          if matches then erase_child t ref p node pos byte else deeper)
        if mismatch_pos == h.prefix_length then below else done t) in
      if p == 0 then done t else (if is_leaf p then leaf else inner)
