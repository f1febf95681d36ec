-- ===== src/Competitors/Art/Node.antt =====
-- The nodes of the tree and the pointers to them (src/competitors/art.hpp).
use learned_secondary_index.Common.{ℕ, ◌+◌, ◌*◌, ◌/◌, ◌%◌, ◌==◌, Bool, List, replicate}
use learned_secondary_index.Common.Word.{word}

-- A pointer is a word: 0 is null, an odd word is a pseudo-leaf, and the address of a node is even,
-- since an allocator aligns it.
abbrev pub Ptr : Type 0
Ptr = ℕ

abbrev pub is_leaf : Ptr → Bool
is_leaf p = p % 2 == 1

abbrev pub get_leaf_value : Ptr → ℕ
get_leaf_value p = p / 2

-- `(tid << 1) | 1`
abbrev pub make_leaf : ℕ → Ptr
make_leaf tid = tid * 2 % word + 1

-- `keyLength + sizeof(size_t) + 1`
abbrev pub max_prefix_length : ℕ
max_prefix_length = 17

abbrev pub empty_marker : ℕ
empty_marker = 48

-- the header of all inner nodes
pub record Header : Type 0 where
  pub prefix_length : ℕ
  pub count : ℕ
  pub prefix : List ℕ

-- The inner nodes, by their type tag.
pub data Node : Type 0 where
  node4 : (header : Header) (key : List ℕ) (child : List Ptr) → Node
  node16 : (header : Header) (key : List ℕ) (child : List Ptr) → Node
  node48 : (header : Header) (child_index : List ℕ) (child : List Ptr) → Node
  node256 : (header : Header) (child : List Ptr) → Node

abbrev pub header : Node → Header
header (node4 h key child) = h
header (node16 h key child) = h
header (node48 h child_index child) = h
header (node256 h child) = h

abbrev pub children : Node → List Ptr
children (node4 h key child) = child
children (node16 h key child) = child
children (node48 h child_index child) = child
children (node256 h child) = child

abbrev pub with_header : Node → Header → Node
with_header (node4 h key child) h' = node4 h' key child
with_header (node16 h key child) h' = node16 h' key child
with_header (node48 h child_index child) h' = node48 h' child_index child
with_header (node256 h child) h' = node256 h' child

abbrev pub with_children : Node → List Ptr → Node
with_children (node4 h key child) child' = node4 h key child'
with_children (node16 h key child) child' = node16 h key child'
with_children (node48 h child_index child) child' = node48 h child_index child'
with_children (node256 h child) child' = node256 h child'

-- `new Node4()` and so on: the prefix bytes are not initialised, and not read before they are written
abbrev pub new_header : Header
new_header = record { prefix_length = 0; count = 0; prefix = replicate max_prefix_length 0 }
