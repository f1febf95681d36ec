-- ===== src/Competitors/Art/Heap.antt =====
-- The memory of a tree of src/competitors/art.hpp, its pointers to pointers, and the keys that the
-- leaves stand for.
use learned_secondary_index.Common.{
  ℕ, ◌+◌, ◌-◌, ◌*◌, ◌/◌, ◌%◌, ◌^◌, ◌==◌, ◌||◌, if◌then◌else◌, Option, some, List, [], ◌∷◌, ◌++◌,
  length,
}
use learned_secondary_index.Common.Run.{Run, done, out_of_bounds, ◌>>=◌, read}
use learned_secondary_index.Common.Arrays.{at, write}
use learned_secondary_index.Competitors.Art.Node.{Ptr, is_leaf, Node, children, with_children}

-- The allocated nodes: `none` is a node that was deleted. The node with number i has the address
-- 2 * (i + 1).
abbrev pub Nodes : Type 0
Nodes = List (Option Node)

abbrev pub address_of : ℕ → Ptr
address_of i = 2 * (i + 1)

-- `*p`: a fault at null, at a tagged pointer and at a deleted node
unfoldable pub load : Nodes → Ptr → Run Node
load nodes p =
    let found = (do node ← at nodes (p / 2 - 1); read node) in
    if p == 0 || is_leaf p then out_of_bounds else found

-- a write to the node at `p`
unfoldable pub store : Nodes → Ptr → Option Node → Run Nodes
unfolding load
store nodes p node = do old ← load nodes p; write nodes (p / 2 - 1) node

-- `new`
abbrev pub allocate : Nodes → Node → Nodes × Ptr
allocate nodes node = (nodes ++ some node ∷ [], address_of (length nodes))

-- `tree_` and the nodes
pub record Tree : Type 0 where
  pub root : Ptr
  pub nodes : Nodes

-- A `Node **`: `&tree_`, `&nullNode`, or a child slot of a node.
pub data Ref : Type 0 where
  tree_ref : Ref
  null_node : Ref
  slot : Ptr → ℕ → Ref

-- `*nodeRef`
unfoldable pub read_ref : Tree → Ref → Run Ptr
unfolding load
read_ref t tree_ref = done t.root
read_ref t null_node = done 0
read_ref t (slot p i) = do node ← load t.nodes p; at (children node) i

-- `*nodeRef = q`
unfoldable pub write_ref : Tree → Ref → Ptr → Run Tree
unfolding load store
write_ref t tree_ref q = done (record t { root = q })
write_ref t null_node q = out_of_bounds
write_ref t (slot p i) q = do
  node ← load t.nodes p
  child ← write (children node) i q
  nodes ← store t.nodes p (some (with_children node child))
  done (record t { nodes = nodes })

-- `swapBytes`: the bytes of a key, highest first
abbrev pub swap_bytes : ℕ → List ℕ
swap_bytes key =
    (key / 2 ^ 56 % 2 ^ 8)
    ∷ (key / 2 ^ 48 % 2 ^ 8)
    ∷ (key / 2 ^ 40 % 2 ^ 8)
    ∷ (key / 2 ^ 32 % 2 ^ 8)
    ∷ (key / 2 ^ 24 % 2 ^ 8)
    ∷ (key / 2 ^ 16 % 2 ^ 8)
    ∷ (key / 2 ^ 8 % 2 ^ 8)
    ∷ (key % 2 ^ 8)
    ∷ []

-- `loadKey` into an array of 16 bytes. It writes the first 8; the others stay uninitialised, and a
-- read of them is out of the bounds of this list.
unfoldable pub load_key : (dataset : List ℕ) → (tid : ℕ) → Run (List ℕ)
load_key dataset tid = do key ← at dataset tid; done (swap_bytes key)
