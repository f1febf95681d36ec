-- ===== src/Competitors/Art/Insert.antt =====
-- `insert` (src/competitors/art.hpp): a leaf is put into the tree.
use learned_secondary_index.Common.{
  ℕ, zero, suc, ◌+◌, ◌-◌, ltb, ◌==◌, if◌then◌else◌, Bool, none, some, List, min,
}
use learned_secondary_index.Common.Run.{Run, done, out_of_fuel, ◌>>=◌}
use learned_secondary_index.Common.Arrays.{at, memmove, memcpy}
use learned_secondary_index.Competitors.Art.Node.{
  Ptr, is_leaf, get_leaf_value, make_leaf, max_prefix_length, Node, header, with_header, new_header,
  node4,
}
use learned_secondary_index.Common.{replicate}
use learned_secondary_index.Competitors.Art.Children.{find_child, insert_child, grows}
use learned_secondary_index.Competitors.Art.Heap.{
  load, store, allocate, Tree, Ref, slot, null_node, read_ref, write_ref, load_key,
}
use learned_secondary_index.Competitors.Art.Prefix.{prefix_mismatch, minimum}

-- `while (a[depth + n] == b[depth + n]) n++`
unfoldable pub common_length : (fuel n : ℕ) → (a b : List ℕ) (depth : ℕ) → Run ℕ
common_length zero n a b depth = out_of_fuel
common_length (suc fuel) n a b depth =
    let rest = common_length fuel (n + 1) a b depth in
    do x ← at a (depth + n); y ← at b (depth + n); if x == y then rest else done n

-- a new Node4 with `bytes` bytes of compressed path and two children
unfoldable pub fork :
    (path : List ℕ) (from bytes : ℕ) → (byte : ℕ) (p : Ptr) → (byte' : ℕ) (p' : Ptr) → Run Node
unfolding insert_child
fork path from bytes byte p byte' p' = do
  prefix ← memcpy new_header.prefix 0 path from (min bytes max_prefix_length)
  first ←
      insert_child
        (node4 (record new_header { prefix_length = bytes; prefix = prefix }) (replicate 4 0)
          (replicate 4 0))
        byte p
  insert_child first byte' p'

-- a new node takes the place of what `ref` points to
unfoldable pub place : Tree → Ref → Node → Run Tree
unfolding write_ref
place t ref node =
    let (nodes, q) = allocate t.nodes node in write_ref (record t { nodes = nodes }) ref q

-- a node that was changed stays at its address, unless it became a new one
unfoldable pub replace : Tree → Ref → Ptr → (moved : Bool) → Node → Run Tree
unfolding place store
replace t ref p moved node =
    let anew = (do
      t' ← place t ref node
      nodes ← store t'.nodes p none
      done (record t' { nodes = nodes })) in
    let same = (do nodes ← store t.nodes p (some node); done (record t { nodes = nodes })) in
    if moved then anew else same

module _ (dataset : List ℕ) (key : List ℕ) (value : ℕ) where
  -- the leaf at `p` is replaced by a node with both leaves
  unfoldable pub insert_at_leaf : Tree → Ptr → Ref → (depth : ℕ) → Run Tree
  unfolding common_length fork place
  insert_at_leaf t p ref depth = do
    existing_key ← load_key dataset (get_leaf_value p)
    n ← common_length (suc max_prefix_length) 0 existing_key key depth
    x ← at existing_key (depth + n)
    y ← at key (depth + n)
    node ← fork key depth n x p y (make_leaf value)
    place t ref node

  -- the compressed path of the node at `p` differs from the key at `mismatch_pos`
  unfoldable pub insert_at_prefix :
      (fuel : ℕ) → Tree → Ptr → Ref → (depth mismatch_pos : ℕ) → Run Tree
  unfolding fork place minimum
  insert_at_prefix fuel t p ref depth mismatch_pos = do
    node ← load t.nodes p
    let h = header node
    let rest = h.prefix_length - (mismatch_pos + 1)
    let short = (do
      x ← at h.prefix mismatch_pos
      prefix ← memmove h.prefix 0 (mismatch_pos + 1) (min rest max_prefix_length)
      done (x, prefix))
    let long = (do
      leaf ← minimum fuel t.nodes p
      min_key ← load_key dataset (get_leaf_value leaf)
      x ← at min_key (depth + mismatch_pos)
      prefix ← memcpy h.prefix 0 min_key (depth + mismatch_pos + 1) (min rest max_prefix_length)
      done (x, prefix))
    (x, prefix) ← (if ltb h.prefix_length max_prefix_length then short else long)
    y ← at key (depth + mismatch_pos)
    forked ← fork h.prefix 0 mismatch_pos x p y (make_leaf value)
    nodes ←
        store t.nodes p
          (some (with_header node (record h { prefix_length = rest; prefix = prefix })))
    place (record t { nodes = nodes }) ref forked

  unfoldable pub insert : (fuel : ℕ) → Tree → Ptr → Ref → (depth : ℕ) → Run Tree
  unfolding insert_at_leaf insert_at_prefix replace
  insert zero t p ref depth = out_of_fuel
  insert (suc fuel) t p ref depth =
      let inner = (do
        node ← load t.nodes p
        let h = header node
        mismatch_pos ←
            (if h.prefix_length == 0
              then done 0
              else prefix_mismatch fuel t.nodes dataset p key depth)
        let depth' = depth + h.prefix_length
        let below = (do
          byte ← at key depth'
          found ← find_child node byte
          let ref' : Ref = elim found [ none ↦ null_node | some i ↦ slot p i ]
          child ← read_ref t ref'
          let deeper = insert fuel t child ref' (depth' + 1)
          let here = (do
            node' ← insert_child node byte (make_leaf value)
            replace t ref p (grows node) node')
          if child == 0 then here else deeper)
        if mismatch_pos == h.prefix_length
            then below
            else insert_at_prefix fuel t p ref depth mismatch_pos) in
      if p == 0
      then write_ref t ref (make_leaf value)
      else (if is_leaf p then insert_at_leaf t p ref depth else inner)
