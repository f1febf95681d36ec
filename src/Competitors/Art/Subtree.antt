-- ===== src/Competitors/Art/Subtree.antt =====
-- What a pointer into the tree stands for: the leaves below it, in the order of their keys
-- (src/competitors/art.hpp).
use learned_secondary_index.Common.{
  ℕ, suc, ◌+◌, ◌^◌, ◌≤◌, ◌<◌, ◌≡◌, ◌≢◌, true, false, List, [], ◌∷◌, ◌++◌, length, get_or, get_elem?,
  some,
}
use learned_secondary_index.Common.Run.{done}
use learned_secondary_index.Competitors.Art.Node.{
  Ptr, is_leaf, get_leaf_value, max_prefix_length, Node, header,
}
use learned_secondary_index.Competitors.Art.Heap.{Nodes, load, swap_bytes}
use learned_secondary_index.Competitors.Art.Search.{child_at}
use learned_secondary_index.Competitors.Art.Contract.{IsNode}

-- byte `i` of a key, the highest first
abbrev pub byte : (key i : ℕ) → ℕ
byte key i = get_or (swap_bytes key) i 0

abbrev pub Each : (P : ℕ → Type 0) → List ℕ → Type 0
Each P [] = Unit
Each P (t ∷ ts) = P t × Each P ts

pub Each-append : (P : ℕ → Type 0) (ts us : List ℕ) → Each P ts → Each P us → Each P (ts ++ us)
Each-append P [] us p q = q
Each-append P (t ∷ ts) us p q = (p.0, Each-append P ts us p.1 q)

pub Each-split : (P : ℕ → Type 0) (ts us : List ℕ) → Each P (ts ++ us) → Each P ts × Each P us
Each-split P [] us p = (tt, p)
Each-split P (t ∷ ts) us p = let (q, r) = Each-split P ts us p.1 in ((p.0, q), r)

pub Each-map : (P Q : ℕ → Type 0) (ts : List ℕ) → ((t : ℕ) → P t → Q t) → Each P ts → Each Q ts
Each-map P Q [] f p = tt
Each-map P Q (t ∷ ts) f p = (f t p.0, Each-map P Q ts f p.1)

pub Each-both : (P Q : ℕ → Type 0) (ts : List ℕ) → Each P ts → Each Q ts → Each (λ t. P t × Q t) ts
Each-both P Q [] p q = tt
Each-both P Q (t ∷ ts) p q = ((p.0, q.0), Each-both P Q ts p.1 q.1)

module _ (nodes : Nodes) (dataset : List ℕ) where
  -- the key of a leaf's value
  abbrev pub key_of : ℕ → ℕ
  key_of t = get_or dataset t 0

  abbrev pub HasPrefix : (depth n : ℕ) → (prefix : List ℕ) → (t : ℕ) → Type 0
  HasPrefix depth n prefix t = (i : ℕ) → i < n → byte (key_of t) (depth + i) ≡ get_or prefix i 0

  mutual
    -- `Below depth p ts`: the leaves below `p`, where `depth` bytes of the keys stand above `p`.
    pub data Below : (depth : ℕ) → (p : Ptr) → (ts : List ℕ) → Type 0 where
      leaf :
          {depth : ℕ} {p : Ptr} {ts : List ℕ}
          → is_leaf p ≡ true
          → depth ≤ 8
          → (x : ℕ) → get_elem? dataset (get_leaf_value p) ≡ some x
          → x < 2 ^ 64
          → ts ≡ get_leaf_value p ∷ []
          → Below depth p ts
      inner :
          {depth : ℕ} {p : Ptr} {ts : List ℕ}
          → (node : Node) → is_leaf p ≡ false
          → p ≢ 0
          → load nodes p ≡ done node
          → IsNode node
          → length (header node).prefix ≡ max_prefix_length
          → depth + (header node).prefix_length < 8
          → Each (HasPrefix depth (header node).prefix_length (header node).prefix) ts
          → ts ≢ []
          → Kids (depth + (header node).prefix_length) node 0 ts
          → Below depth p ts

    -- `Kids depth node b ts`: the leaves below the children for the bytes from `b` on.
    pub data Kids : (depth : ℕ) → (node : Node) → (b : ℕ) → (ts : List ℕ) → Type 0 where
      end :
          {depth : ℕ} {node : Node} {b : ℕ} {ts : List ℕ} → b ≡ 256 → ts ≡ [] → Kids depth node b ts
      gap :
          {depth : ℕ} {node : Node} {b : ℕ} {ts : List ℕ}
          → b < 256
          → child_at node b ≡ done 0
          → Kids depth node (suc b) ts
          → Kids depth node b ts
      kid :
          {depth : ℕ} {node : Node} {b : ℕ} {ts : List ℕ}
          → b < 256
          → (c : Ptr) → c ≢ 0
          → child_at node b ≡ done c
          → (us vs : List ℕ) → Below (suc depth) c us
          → Each (λ t. byte (key_of t) depth ≡ b) us
          → Kids depth node (suc b) vs
          → ts ≡ us ++ vs
          → Kids depth node b ts
