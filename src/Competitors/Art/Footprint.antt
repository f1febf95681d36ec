-- ===== src/Competitors/Art/Footprint.antt =====
-- Trees with the addresses of their nodes (src/competitors/art.hpp).
use learned_secondary_index.Common.{
  ℕ, suc, ◌+◌, ◌^◌, ◌≤◌, ◌<◌, ◌≡◌, ◌≢◌, true, false, List, [], ◌∷◌, ◌++◌, length, get_elem?, some,
}
use learned_secondary_index.Common.Run.{done}
use learned_secondary_index.Competitors.Art.Node.{
  Ptr, is_leaf, get_leaf_value, max_prefix_length, Node, header,
}
use learned_secondary_index.Competitors.Art.Heap.{Nodes, load}
use learned_secondary_index.Competitors.Art.Search.{child_at}
use learned_secondary_index.Competitors.Art.Contract.{IsNode}
use learned_secondary_index.Competitors.Art.Subtree.{
  byte, Each, Each-append, Each-split, key_of, HasPrefix, Below, leaf, inner, Kids, end, gap, kid,
}

-- `q` is not one of the addresses
abbrev pub Apart : (q : Ptr) → List Ptr → Type 0
Apart q fs = Each (λ f. f ≢ q) fs

-- no address twice
abbrev pub Distinct : List Ptr → Type 0
Distinct [] = Unit
Distinct (f ∷ fs) = Apart f fs × Distinct fs

-- no address in both
abbrev pub Disjoint : List Ptr → List Ptr → Type 0
Disjoint fs gs = Each (λ g. Apart g fs) gs

module _ (dataset : List ℕ) where
  mutual
    -- `At nodes depth p ts fs`: `p` has the leaves `ts` below it, and the nodes `fs`.
    pub data At
        : (nodes : Nodes) → (depth : ℕ) → (p : Ptr) → (ts : List ℕ) → (fs : List Ptr) → Type 0 where
      tip :
          {nodes : Nodes} {depth : ℕ} {p : Ptr} {ts : List ℕ} {fs : List Ptr}
          → is_leaf p ≡ true
          → depth ≤ 8
          → (x : ℕ) → get_elem? dataset (get_leaf_value p) ≡ some x
          → x < 2 ^ 64
          → ts ≡ get_leaf_value p ∷ []
          → fs ≡ []
          → At nodes depth p ts fs
      branch :
          {nodes : Nodes} {depth : ℕ} {p : Ptr} {ts : List ℕ} {fs : List Ptr}
          → (node : Node) → is_leaf p ≡ false
          → p ≢ 0
          → load nodes p ≡ done node
          → IsNode node
          → length (header node).prefix ≡ max_prefix_length
          → depth + (header node).prefix_length < 8
          → Each (HasPrefix nodes dataset depth (header node).prefix_length (header node).prefix) ts
          → ts ≢ []
          → (gs : List Ptr) → Slots nodes (depth + (header node).prefix_length) node 0 ts gs
          → fs ≡ p ∷ gs
          → At nodes depth p ts fs

    pub data Slots
        : (nodes : Nodes)
          → (depth : ℕ) → (node : Node) → (b : ℕ) → (ts : List ℕ) → (fs : List Ptr) → Type 0 where
      last :
          {nodes : Nodes} {depth : ℕ} {node : Node} {b : ℕ} {ts : List ℕ} {fs : List Ptr}
          → b ≡ 256
          → ts ≡ []
          → fs ≡ []
          → Slots nodes depth node b ts fs
      free :
          {nodes : Nodes} {depth : ℕ} {node : Node} {b : ℕ} {ts : List ℕ} {fs : List Ptr}
          → b < 256
          → child_at node b ≡ done 0
          → Slots nodes depth node (suc b) ts fs
          → Slots nodes depth node b ts fs
      used :
          {nodes : Nodes} {depth : ℕ} {node : Node} {b : ℕ} {ts : List ℕ} {fs : List Ptr}
          → b < 256
          → (c : Ptr) → c ≢ 0
          → child_at node b ≡ done c
          → (us vs : List ℕ) → (gs hs : List Ptr) → At nodes (suc depth) c us gs
          → Each (λ t. byte (key_of nodes dataset t) depth ≡ b) us
          → Slots nodes depth node (suc b) vs hs
          → ts ≡ us ++ vs
          → fs ≡ gs ++ hs
          → Slots nodes depth node b ts fs

  mutual
    pub At-Below :
        {nodes : Nodes} {depth : ℕ} {p : Ptr} {ts : List ℕ} {fs : List Ptr}
        → At nodes depth p ts fs
        → Below nodes dataset depth p ts
    At-Below (tip l d x at small e f) = leaf l d x at small e
    At-Below (branch node l ne at w whole within path nonempty gs slots f) =
        inner node l ne at w whole within path nonempty (Slots-Kids slots)

    pub Slots-Kids :
        {nodes : Nodes} {depth : ℕ} {node : Node} {b : ℕ} {ts : List ℕ} {fs : List Ptr}
        → Slots nodes depth node b ts fs
        → Kids nodes dataset depth node b ts
    Slots-Kids (last e f g) = end e f
    Slots-Kids (free lt at rest) = gap lt at (Slots-Kids rest)
    Slots-Kids (used lt c ne at us vs gs hs below same rest e f) =
        kid lt c ne at us vs (At-Below below) same (Slots-Kids rest) e

  -- all nodes of a tree can be loaded
  abbrev pub Loaded : Nodes → Ptr → Type 0
  Loaded nodes g = (n : Node) × (load nodes g ≡ done n)

  mutual
    pub At-Loaded :
        {nodes : Nodes} {depth : ℕ} {p : Ptr} {ts : List ℕ} {fs : List Ptr}
        → At nodes depth p ts fs
        → Each (Loaded nodes) fs
    At-Loaded (tip l d x at small e f) = rw f tt
    At-Loaded (branch node l ne at w whole within path nonempty gs slots f) =
        rw f ((node, at), Slots-Loaded slots)

    pub Slots-Loaded :
        {nodes : Nodes} {depth : ℕ} {node : Node} {b : ℕ} {ts : List ℕ} {fs : List Ptr}
        → Slots nodes depth node b ts fs
        → Each (Loaded nodes) fs
    Slots-Loaded (last e f g) = rw g tt
    Slots-Loaded (free lt at rest) = Slots-Loaded rest
    Slots-Loaded {nodes} (used lt c ne at us vs gs hs below same rest e f) =
        rw f (Each-append (Loaded nodes) gs hs (At-Loaded below) (Slots-Loaded rest))

  -- A tree stays what it is as long as its nodes do.
  abbrev pub Keeps : Nodes → Nodes → List Ptr → Type 0
  Keeps nodes nodes' fs =
      Each (λ q. (node : Node) → load nodes q ≡ done node → load nodes' q ≡ done node) fs

  pub Keeps-refl : (nodes : Nodes) (fs : List Ptr) → Keeps nodes nodes fs
  Keeps-refl nodes [] = tt
  Keeps-refl nodes (f ∷ fs) = ((λ node there. there), Keeps-refl nodes fs)

  mutual
    pub At-Keeps :
        {nodes : Nodes} {depth : ℕ} {p : Ptr} {ts : List ℕ} {fs : List Ptr} (nodes' : Nodes)
        → At nodes depth p ts fs
        → Keeps nodes nodes' fs
        → At nodes' depth p ts fs
    At-Keeps nodes' (tip l d x at small e f) keeps = tip l d x at small e f
    At-Keeps {nodes} nodes' (branch node l ne at w whole within path nonempty gs slots f) keeps =
        let (here, rest) = rw f at keeps in
        branch node l ne (here node at) w whole within path nonempty gs
          (Slots-Keeps nodes' slots rest) f

    pub Slots-Keeps :
        {nodes : Nodes} {depth : ℕ} {node : Node} {b : ℕ} {ts : List ℕ} {fs : List Ptr}
        (nodes' : Nodes)
        → Slots nodes depth node b ts fs
        → Keeps nodes nodes' fs
        → Slots nodes' depth node b ts fs
    Slots-Keeps nodes' (last e f g) keeps = last e f g
    Slots-Keeps nodes' (free lt at rest) keeps = free lt at (Slots-Keeps nodes' rest keeps)
    Slots-Keeps {nodes} nodes' (used lt c ne at us vs gs hs below same rest e f) keeps =
        let (first, others) =
          Each-split (λ q. (node : Node) → load nodes q ≡ done node → load nodes' q ≡ done node) gs
            hs (rw f at keeps) in
        used lt c ne at us vs gs hs (At-Keeps nodes' below first) same
          (Slots-Keeps nodes' rest others) e f
