-- ===== src/Competitors/Art/Index.antt =====
-- The interface of ART (src/competitors/art.hpp), for keys of 64 bits: `fit`, `lookup`, the sizes and
-- the destructor.
use learned_secondary_index.Common.{
  ℕ, zero, suc, ◌+◌, ◌*◌, ◌==◌, if◌then◌else◌, Bool, true, false, none, List, [], ◌∷◌, ◌++◌, length,
  take, replicate,
}
use learned_secondary_index.Common.Run.{Run, done, out_of_fuel, ◌>>=◌}
use learned_secondary_index.Common.Arrays.{at}
use learned_secondary_index.Common.Sorting.{Pair, enumerate}
use learned_secondary_index.Competitors.Art.Node.{
  Ptr, is_leaf, empty_marker, Node, node4, node16, node48, node256,
}
use learned_secondary_index.Competitors.Art.Heap.{Nodes, load, store, Tree, tree_ref, swap_bytes}
use learned_secondary_index.Competitors.Art.Iterator.{Iterator, reset, minimum_it}
use learned_secondary_index.Competitors.Art.Search.{bound}
use learned_secondary_index.Competitors.Art.Insert.{insert}

-- `data_begin_` as the range it points to, and `tree_`; nothing reads `data_size_`
pub record Art : Type 0 where
  pub dataset : List ℕ
  pub tree : Tree

unfoldable pub new : Art
new = record { dataset = []; tree = record { root = 0; nodes = [] } }

-- the levels of a tree over keys of 16 bytes
abbrev pub levels : ℕ
levels = 18

-- `for (const auto &[data_key, tid] : data)`
unfoldable pub insert_all : (dataset : List ℕ) → List Pair → Tree → Run Tree
insert_all dataset [] t = done t
insert_all dataset ((key, tid) ∷ pairs) t = do
  t' ← insert dataset (swap_bytes key ++ swap_bytes tid) tid levels t t.root tree_ref 0
  insert_all dataset pairs t'

-- `sort` is `std::sort` of pairs
unfoldable pub fit : (sort : List Pair → List Pair) → List ℕ → Art → Run Art
unfolding insert_all
fit sort base index = do
  tree ← insert_all base (sort (enumerate 0 base)) index.tree
  done (record { dataset = base; tree = tree })

unfoldable pub construct : (sort : List Pair → List Pair) → List ℕ → Run Art
unfolding fit new
construct sort base = fit sort base new

-- enough rounds for `next` to leave a tree of any size
abbrev pub rounds : Art → ℕ
rounds index = suc (257 * suc (length index.tree.nodes)) + levels

unfoldable pub begin : Art → Run Iterator
begin index = minimum_it levels index.tree.nodes index.tree.root (reset false)

unfoldable pub end : Art → Iterator
unfolding reset
end index = reset true

-- `lookup`, for either value of its template parameter
unfoldable pub lookup : Art → (lowerbound : Bool) → ℕ → Run Iterator
unfolding end
lookup index lowerbound key = do
  (found, it) ←
      bound (rounds index) index.tree.nodes index.dataset (swap_bytes key ++ replicate 8 0) 8 true
        index.tree.root (reset false)
  done (if found then it else end index)

unfoldable pub base_data_accesses : Art → ℕ
base_data_accesses index = 0

unfoldable pub false_positive_accesses : Art → ℕ
false_positive_accesses index = 0

unfoldable pub perm_vector_byte_size : Art → ℕ
perm_vector_byte_size index = 0

-- the children behind the indices that are in use, from index `i` on
unfoldable pub indexed_children :
    (rounds i : ℕ) → (child_index : List ℕ) (child : List Ptr) → Run (List Ptr)
indexed_children zero i child_index child = done []
indexed_children (suc rounds) i child_index child = do
  index ← at child_index i
  first ← (if index == empty_marker then done [] else (do c ← at child index; done (c ∷ [])))
  rest ← indexed_children rounds (i + 1) child_index child
  done (first ++ rest)

unfoldable pub nonnull : List Ptr → List Ptr
nonnull [] = []
nonnull (c ∷ cs) = if c == 0 then nonnull cs else c ∷ nonnull cs

-- the children that the loops of `model_byte_size` and `destructTree` visit, in order
unfoldable pub visited : Node → Run (List Ptr)
unfolding indexed_children nonnull
visited (node4 h key child) = done (take h.count child)
visited (node16 h key child) = done (take h.count child)
visited (node48 h child_index child) = indexed_children 256 0 child_index child
visited (node256 h child) = done (nonnull child)

-- what the compiler says about the sizes
pub record Sizes : Type 0 where
  pub art : ℕ
  pub node4 : ℕ
  pub node16 : ℕ
  pub node48 : ℕ
  pub node256 : ℕ

abbrev pub node_size : Sizes → Node → ℕ
node_size s (node4 h key child) = s.node4
node_size s (node16 h key child) = s.node16
node_size s (node48 h child_index child) = s.node48
node_size s (node256 h child) = s.node256

-- `a` is pushed onto a stack one by one
abbrev pub push_all : List Ptr → List Ptr → List Ptr
push_all [] stack = stack
push_all (a ∷ as') stack = push_all as' (a ∷ stack)

-- `while (!stack.empty())`
unfoldable pub size_loop : Sizes → Nodes → (fuel : ℕ) → (stack : List Ptr) → (res : ℕ) → Run ℕ
unfolding visited
size_loop s nodes zero stack res = out_of_fuel
size_loop s nodes (suc fuel) [] res = done res
size_loop s nodes (suc fuel) (p ∷ stack) res =
    let skip = size_loop s nodes fuel stack res in
    let inner = (do
      node ← load nodes p
      children ← visited node
      size_loop s nodes fuel (push_all children stack) (res + node_size s node)) in
    if is_leaf p then skip else inner

unfoldable pub model_byte_size : Sizes → Art → Run ℕ
unfolding size_loop
model_byte_size s index = size_loop s index.tree.nodes (rounds index) (index.tree.root ∷ []) s.art

unfoldable pub byte_size : Sizes → Art → Run ℕ
unfolding model_byte_size perm_vector_byte_size
byte_size s index = do n ← model_byte_size s index; done (perm_vector_byte_size index + n)

-- a loop of `destructTree` over children
unfoldable pub destruct_each : (destruct : Nodes → Ptr → Run Nodes) → List Ptr → Nodes → Run Nodes
destruct_each destruct [] nodes = done nodes
destruct_each destruct (c ∷ cs) nodes = do
  nodes' ← (if is_leaf c then done nodes else destruct nodes c)
  destruct_each destruct cs nodes'

unfoldable pub destruct_tree : (fuel : ℕ) → Nodes → Ptr → Run Nodes
unfolding destruct_each visited
destruct_tree zero nodes p = out_of_fuel
destruct_tree (suc fuel) nodes p =
    let inner = (do
      node ← load nodes p
      children ← visited node
      nodes' ← destruct_each (destruct_tree fuel) children nodes
      store nodes' p none) in
    if p == 0 then done nodes else inner

-- `~ART`
unfoldable pub destroy : Art → Run Nodes
unfolding destruct_tree
destroy index = destruct_tree levels index.tree.nodes index.tree.root
