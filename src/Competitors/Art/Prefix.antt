-- ===== src/Competitors/Art/Prefix.antt =====
-- Smallest and largest leaves, and the comparison of keys with leaves and with the compressed paths of
-- nodes (src/competitors/art.hpp). A `key` is an array of bytes.
use learned_secondary_index.Common.{
  ℕ, zero, suc, ◌+◌, ◌-◌, ltb, ◌==◌, if◌then◌else◌, Bool, true, false, List, min,
}
use learned_secondary_index.Common.Run.{Run, done, out_of_bounds, out_of_fuel, ◌>>=◌}
use learned_secondary_index.Common.Arrays.{at}
use learned_secondary_index.Competitors.Art.Node.{
  Ptr, is_leaf, get_leaf_value, max_prefix_length, empty_marker, Node, node4, node16, node48,
  node256, header,
}
use learned_secondary_index.Competitors.Art.Heap.{Nodes, load, load_key}
use learned_secondary_index.Competitors.Art.Iterator.{top, reset, minimum_it}

unfoldable pub minimum : (fuel : ℕ) → Nodes → Ptr → Run Ptr
unfolding minimum_it top reset
minimum fuel nodes p = do it ← minimum_it fuel nodes p (reset false); e ← top it; done e.node

-- `pos = 255; while (used[pos] == unused) pos--`; below 0 the position wraps around
unfoldable pub last_used : (rounds : ℕ) → List ℕ → (unused : ℕ) → Run ℕ
last_used zero used unused = out_of_bounds
last_used (suc pos) used unused =
    let rest = last_used pos used unused in
    do x ← at used pos; if x == unused then rest else done pos

unfoldable pub last_child : Node → Run Ptr
unfolding last_used
last_child (node4 h key child) = if h.count == 0 then out_of_bounds else at child (h.count - 1)
last_child (node16 h key child) = if h.count == 0 then out_of_bounds else at child (h.count - 1)
last_child (node48 h child_index child) = do
  pos ← last_used 256 child_index empty_marker
  i ← at child_index pos
  at child i
last_child (node256 h child) = do pos ← last_used 256 child 0; at child pos

unfoldable pub maximum : (fuel : ℕ) → Nodes → Ptr → Run Ptr
unfolding last_child
maximum zero nodes p = out_of_fuel
maximum (suc fuel) nodes p =
    let descend = (do node ← load nodes p; c ← last_child node; maximum fuel nodes c) in
    if p == 0 then done 0 else (if is_leaf p then done p else descend)

-- `for (i < rounds) if (a[i + from_a] != b[i + from_b]) return i`, counted from `pos`
unfoldable pub compare_bytes :
    (rounds pos : ℕ) → (a : List ℕ) (from_a : ℕ) (b : List ℕ) (from_b : ℕ) → Run ℕ
compare_bytes zero pos a from_a b from_b = done pos
compare_bytes (suc rounds) pos a from_a b from_b =
    let rest = compare_bytes rounds (pos + 1) a from_a b from_b in
    do x ← at a (from_a + pos); y ← at b (from_b + pos); if x == y then rest else done pos

-- the common part of both functions `prefixMismatch`, for `bytes` bytes
unfoldable pub mismatch :
    (fuel : ℕ) → Nodes → (dataset : List ℕ) → Ptr → (key : List ℕ) (depth bytes : ℕ) → Run ℕ
unfolding compare_bytes minimum
mismatch fuel nodes dataset p key depth bytes = do
  node ← load nodes p
  let prefix = (header node).prefix
  let long = (do
    pos ← compare_bytes max_prefix_length 0 key depth prefix 0
    let rest = (do
      leaf ← minimum fuel nodes p
      min_key ← load_key dataset (get_leaf_value leaf)
      compare_bytes (bytes - max_prefix_length) max_prefix_length key depth min_key depth)
    if ltb pos max_prefix_length then done pos else rest)
  let short = compare_bytes bytes 0 key depth prefix 0
  if ltb max_prefix_length bytes then long else short

-- `prefixMismatch` with four arguments
unfoldable pub prefix_mismatch :
    (fuel : ℕ) → Nodes → (dataset : List ℕ) → Ptr → (key : List ℕ) (depth : ℕ) → Run ℕ
unfolding mismatch
prefix_mismatch fuel nodes dataset p key depth = do
  node ← load nodes p
  mismatch fuel nodes dataset p key depth (header node).prefix_length

-- `prefixMismatch` with five arguments
unfoldable pub prefix_mismatch_within :
    (fuel : ℕ) → Nodes → (dataset : List ℕ) → Ptr → (key : List ℕ) (depth key_length : ℕ) → Run ℕ
unfolding mismatch
prefix_mismatch_within fuel nodes dataset p key depth key_length = do
  node ← load nodes p
  mismatch fuel nodes dataset p key depth (min (key_length - depth) (header node).prefix_length)

-- `for (i = from; i < key_length; i++) if (leafKey[i] != key[i]) return false`
unfoldable pub equal_from : (rounds from : ℕ) → (leaf_key key : List ℕ) → Run Bool
unfolding compare_bytes
equal_from rounds from leaf_key key = do
  pos ← compare_bytes rounds 0 leaf_key from key from
  done (pos == rounds)

unfoldable pub leaf_matches :
    Nodes → (dataset : List ℕ) → (leaf : Ptr) (key : List ℕ) (key_length depth : ℕ) → Run Bool
unfolding equal_from
leaf_matches nodes dataset leaf key key_length depth =
    let check = (do
      leaf_key ← load_key dataset (get_leaf_value leaf)
      equal_from (key_length - depth) depth leaf_key key) in
    if depth == key_length then done true else check
