-- ===== src/Competitors/Art/Children.antt =====
-- Finding and inserting a child of a node (`findChild` and `insertNode4` to `insertNode256` of
-- src/competitors/art.hpp). A node that is full grows into the next type.
use learned_secondary_index.Common.{
  ℕ, zero, suc, ◌+◌, ◌-◌, ◌%◌, ◌^◌, ltb, ◌==◌, not, if◌then◌else◌, Bool, false, Option, none, some,
  List, [], ◌∷◌, length, take, map, replicate,
}
use learned_secondary_index.Common.Run.{Run, done, out_of_fuel, ◌>>=◌}
use learned_secondary_index.Common.Arrays.{at, write, memmove, memcpy}
use learned_secondary_index.Competitors.Art.Node.{
  Ptr, max_prefix_length, empty_marker, Header, Node, node4, node16, node48, node256, new_header,
}

-- `for (i = 0; i < count; i++) if (key[i] == keyByte)`
unfoldable pub find_key : (rounds i : ℕ) → List ℕ → ℕ → Run (Option ℕ)
find_key zero i key byte = done none
find_key (suc rounds) i key byte =
    let rest = find_key rounds (i + 1) key byte in
    do k ← at key i; if k == byte then done (some i) else rest

-- `_mm_cmpeq_epi8` and `_mm_movemask_epi8`: the bit of each of the 16 keys, lowest first
abbrev pub equal_bits : List ℕ → ℕ → List Bool
equal_bits key byte = map (λ k. k == byte) key

-- `ctz` of a bit field, and `none` for an empty one
unfoldable pub lowest_set : (i : ℕ) → List Bool → Option ℕ
lowest_set i [] = none
lowest_set i (b ∷ bits) = if b then some i else lowest_set (i + 1) bits

-- `findChild`: the slot of the child, or `none` for the pointer to `nullNode`
unfoldable pub find_child : Node → ℕ → Run (Option ℕ)
unfolding find_key lowest_set
find_child (node4 h key child) byte = find_key h.count 0 key byte
find_child (node16 h key child) byte = done (lowest_set 0 (take h.count (equal_bits key byte)))
find_child (node48 h child_index child) byte = do
  i ← at child_index byte
  if i == empty_marker then done none else done (some i)
find_child (node256 h child) byte = done (some byte)

-- `for (pos = 0; pos < count && key[pos] < keyByte; pos++)`
unfoldable pub insert_position : (rounds pos : ℕ) → List ℕ → ℕ → Run ℕ
insert_position zero pos key byte = done pos
insert_position (suc rounds) pos key byte =
    let rest = insert_position rounds (pos + 1) key byte in
    do k ← at key pos; if ltb k byte then rest else done pos

-- `count++` of a `uint16_t`
abbrev pub incr_count : Header → Header
incr_count h = record h { count = (h.count + 1) % 2 ^ 16 }

-- `copyPrefix`
abbrev pub copy_prefix : Header → Header → Run Header
copy_prefix src dst = do
  prefix ←
      memcpy dst.prefix 0 src.prefix 0
        (if ltb src.prefix_length max_prefix_length then src.prefix_length else max_prefix_length)
  done (record dst { prefix_length = src.prefix_length; prefix = prefix })

unfoldable pub insert_node256 : Header → List Ptr → (byte : ℕ) → Ptr → Run Node
insert_node256 h child byte c = do child' ← write child byte c; done (node256 (incr_count h) child')

-- `if (node->child[pos]) for (pos = 0; node->child[pos] != NULL; pos++)`
unfoldable pub free_slot : (fuel pos : ℕ) → List Ptr → Run ℕ
free_slot zero pos child = out_of_fuel
free_slot (suc fuel) pos child =
    let rest = free_slot fuel (pos + 1) child in
    do c ← at child pos; if c == 0 then done pos else rest

-- the loop of `insertNode48` that fills the children of a Node256
unfoldable pub spread_children :
    (rounds i : ℕ) → (child_index : List ℕ) (child filled : List Ptr) → Run (List Ptr)
spread_children zero i child_index child filled = done filled
spread_children (suc rounds) i child_index child filled = do
  index ← at child_index i
  filled' ← (if index == 48 then done filled else (do c ← at child index; write filled i c))
  spread_children rounds (i + 1) child_index child filled'

-- the node of the next type
unfoldable pub grow_node48 :
    Header → (child_index : List ℕ) (child : List Ptr) (byte : ℕ) → Ptr → Run Node
grow_node48 h child_index child byte c = do
  filled ← spread_children 256 0 child_index child (replicate 256 0)
  h' ← copy_prefix h (record new_header { count = h.count })
  insert_node256 h' filled byte c

-- the node with room
unfoldable pub place_node48 :
    Header → (child_index : List ℕ) (child : List Ptr) (byte : ℕ) → Ptr → Run Node
place_node48 h child_index child byte c = do
  last ← at child h.count
  pos ← (if last == 0 then done h.count else free_slot (suc (length child)) 0 child)
  child' ← write child pos c
  child_index' ← write child_index byte pos
  done (node48 (incr_count h) child_index' child')

unfoldable pub insert_node48 :
    Header → (child_index : List ℕ) (child : List Ptr) (byte : ℕ) → Ptr → Run Node
insert_node48 h child_index child byte c =
    if ltb h.count 48
    then place_node48 h child_index child byte c
    else grow_node48 h child_index child byte c

-- `childIndex[key[i]] = i`
unfoldable pub index_keys : (rounds i : ℕ) → (key child_index : List ℕ) → Run (List ℕ)
index_keys zero i key child_index = done child_index
index_keys (suc rounds) i key child_index = do
  k ← at key i
  child_index' ← write child_index k i
  index_keys rounds (i + 1) key child_index'

-- what `insertNode4` and `insertNode16` do to a node with room
unfoldable pub insert_sorted :
    Header → (key : List ℕ) (child : List Ptr) (byte : ℕ) → Ptr → Run (List ℕ × List Ptr)
unfolding insert_position
insert_sorted h key child byte c = do
  pos ← insert_position h.count 0 key byte
  moved_key ← memmove key (pos + 1) pos (h.count - pos)
  moved_child ← memmove child (pos + 1) pos (h.count - pos)
  key' ← write moved_key pos byte
  child' ← write moved_child pos c
  done (key', child')

-- the node of the next type
unfoldable pub grow_node16 : Header → (key : List ℕ) (child : List Ptr) (byte : ℕ) → Ptr → Run Node
grow_node16 h key child byte c = do
  child' ← memcpy (replicate 48 0) 0 child 0 h.count
  child_index ← index_keys h.count 0 key (replicate 256 empty_marker)
  h' ← copy_prefix h new_header
  insert_node48 (record h' { count = h.count }) child_index child' byte c

-- the node with room
unfoldable pub place_node16 : Header → (key : List ℕ) (child : List Ptr) (byte : ℕ) → Ptr → Run Node
place_node16 h key child byte c = do
  (key', child') ← insert_sorted h key child byte c
  done (node16 (incr_count h) key' child')

unfoldable pub insert_node16 :
    Header → (key : List ℕ) (child : List Ptr) (byte : ℕ) → Ptr → Run Node
insert_node16 h key child byte c =
    if ltb h.count 16 then place_node16 h key child byte c else grow_node16 h key child byte c

-- the node of the next type
unfoldable pub grow_node4 : Header → (key : List ℕ) (child : List Ptr) (byte : ℕ) → Ptr → Run Node
grow_node4 h key child byte c = do
  h' ← copy_prefix h (record new_header { count = 4 })
  key' ← memcpy (replicate 16 0) 0 key 0 4
  child' ← memcpy (replicate 16 0) 0 child 0 h.count
  insert_node16 h' key' child' byte c

-- the node with room
unfoldable pub place_node4 : Header → (key : List ℕ) (child : List Ptr) (byte : ℕ) → Ptr → Run Node
place_node4 h key child byte c = do
  (key', child') ← insert_sorted h key child byte c
  done (node4 (incr_count h) key' child')

unfoldable pub insert_node4 : Header → (key : List ℕ) (child : List Ptr) (byte : ℕ) → Ptr → Run Node
insert_node4 h key child byte c =
    if ltb h.count 4 then place_node4 h key child byte c else grow_node4 h key child byte c

-- the `switch` of `insert` over the node's type
unfoldable pub insert_child : Node → (byte : ℕ) → Ptr → Run Node
insert_child (node4 h key child) byte c = insert_node4 h key child byte c
insert_child (node16 h key child) byte c = insert_node16 h key child byte c
insert_child (node48 h child_index child) byte c = insert_node48 h child_index child byte c
insert_child (node256 h child) byte c = insert_node256 h child byte c

-- whether the call makes a new node, at another address
abbrev pub grows : Node → Bool
grows (node4 h key child) = not (ltb h.count 4)
grows (node16 h key child) = not (ltb h.count 16)
grows (node48 h child_index child) = not (ltb h.count 48)
grows (node256 h child) = false
