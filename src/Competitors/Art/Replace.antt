-- ===== src/Competitors/Art/Replace.antt =====
-- `insert` of a leaf into a node that has no child for its byte (src/competitors/art.hpp): the node
-- changes where it is, or a larger one takes its place.
use learned_secondary_index.Common.{
  ℕ, zero, suc, ◌+◌, ◌-◌, ◌/◌, ◌<◌, ◌≡◌, ◌≢◌, refl, ap, ◌∙◌, sym, ltb, Bool, true, false, inl, inr,
  some, none, List, [], ◌∷◌, length, get_elem?, arith, ◌⊎◌,
}
use mathlib.Core.Path.{subst}
use learned_secondary_index.Common.Run.{Run, done}
use learned_secondary_index.Common.Arrays.{set}
use learned_secondary_index.Competitors.Art.Node.{
  Ptr, is_leaf, Node, node4, node16, node48, node256, header, children, with_children,
}
use learned_secondary_index.Competitors.Art.Heap.{
  Nodes, load, address_of, Tree, Ref, tree_ref, null_node, slot,
}
use learned_secondary_index.Competitors.Art.Contract.{IsNode}
use learned_secondary_index.Competitors.Art.Insert.{replace}
use learned_secondary_index.Competitors.Art.Subtree.{Each, Each-map, HasPrefix}
use learned_secondary_index.Competitors.Art.Footprint.{At, branch, Slots}
use learned_secondary_index.Competitors.Art.HeapLaws.{
  load-within, load-store-same, load-store-other, load-fresh, load-Loads,
}
use learned_secondary_index.Competitors.Art.SamePrefix.{SamePrefix, done_inj}
use learned_secondary_index.Competitors.Art.Slot.{rewritten}
use learned_secondary_index.Competitors.Art.Links.{Points, NotOf, Linked, place_lem}

set-same : (a : List ℕ) (i x : ℕ) → get_elem? a i ≡ some x → set a i x ≡ a
set-same [] i x e = refl
set-same (y ∷ a) zero x e = let same : y ≡ x = ground (arith, e) in ap (λ z. z ∷ a) (sym same)
set-same (y ∷ a) (suc i) x e = ap (◌∷◌ y) (set-same a i x e)

with_children-same : (node : Node) → with_children node (children node) ≡ node
with_children-same (node4 h key child) = refl
with_children-same (node16 h key child) = refl
with_children-same (node48 h index child) = refl
with_children-same (node256 h child) = refl

pub rewritten-same :
    (node : Node) (i : ℕ) (p : Ptr)
    → get_elem? (children node) i ≡ some p
    → rewritten node i p ≡ node
rewritten-same node i p e =
    ap (with_children node) (set-same (children node) i p e) ∙ with_children-same node

-- a pointer that stays
pub Linked-same :
    (t t' : Tree) (ref : Ref) (p : Ptr)
    → Points t ref p
    → t'.root ≡ t.root
    → ((g : Ptr) (n : Node)
        → load t.nodes g ≡ done n
        → NotOf (slot p 0) g
        → load t'.nodes g ≡ done n)
    → NotOf ref p
    → Linked t t' ref p
Linked-same t t' tree_ref p points root kept apart = root ∙ points
Linked-same t t' null_node p points root kept apart = points
Linked-same t t' (slot q i) p (node, there, here) root kept apart = (
  root,
  λ old e.
      let same : old ≡ node = done_inj old node (sym e ∙ there) in
      rw (same, rewritten-same node i p here) (kept q node there (λ e. apart (sym e))),
)

-- the old node is deleted afterwards
Linked-store :
    (t t' : Tree) (ref : Ref) (q p : Ptr) (node : Node)
    → Linked t t' ref q
    → NotOf ref p
    → load t'.nodes p ≡ done node
    → Linked t (record t' { nodes = set t'.nodes (p / 2 - 1) none }) ref q
Linked-store t t' tree_ref q p node linked apart there = linked
Linked-store t t' null_node q p node linked apart there = linked
Linked-store t t' (slot r i) q p node (root, change) apart there = (
  root,
  λ old e.
      load-store-other t'.nodes p node there none r (rewritten old i q) (λ e. apart (sym e))
        (change old e),
)

module _ (dataset : List ℕ) where
  -- a node with the compressed path of another one
  pub branch_again :
      (nodes' : Nodes) (depth q : ℕ) (node node' : Node) (us : List ℕ) (gs : List Ptr)
      → is_leaf q ≡ false
      → q ≢ 0
      → load nodes' q ≡ done node'
      → IsNode node'
      → SamePrefix (header node) (header node')
      → depth + (header node).prefix_length < 8
      → Each (HasPrefix nodes' dataset depth (header node).prefix_length (header node).prefix) us
      → us ≢ []
      → Slots dataset nodes' (depth + (header node).prefix_length) node' 0 us gs
      → At dataset nodes' depth q us (q ∷ gs)
  branch_again nodes' depth q node node' us gs inner ne there w (l, size, same) within path nonempty
        slots =
      branch node' inner ne there w size (omega (arith, l))
        (Each-map (HasPrefix nodes' dataset depth (header node).prefix_length (header node).prefix)
          (HasPrefix nodes' dataset depth (header node').prefix_length (header node').prefix) us
          (λ t own i less.
            own i (omega (arith, l, less))
            ∙ sym (same i (omega (arith, l, less)) (omega (arith, l, less))))
          path)
        nonempty gs (subst (λ m. Slots dataset nodes' (depth + m) node' 0 us gs) (sym l) slots) refl

  -- what `replace` leaves: the node `node'` at an address `q`
  abbrev pub Replaced : Tree → Ref → (p : Ptr) → Node → Run Tree → Type 0
  Replaced t ref p node' run =
      (t' : Tree) × (q : Ptr) × (run ≡ done t')
      × Linked t t' ref q
      × (load t'.nodes q ≡ done node')
      × (is_leaf q ≡ false)
      × (q ≢ 0)
      × ((q ≡ p) ⊎ (q ≡ address_of (length t.nodes)))
      × ((g : Ptr) (n : Node)
          → load t.nodes g ≡ done n
          → g ≢ p
          → NotOf ref g
          → load t'.nodes g ≡ done n)

  pub replace_lem :
      (t : Tree) (ref : Ref) (p : Ptr) (node node' : Node) (moved : Bool)
      → Points t ref p
      → NotOf ref p
      → load t.nodes p ≡ done node
      → Replaced t ref p node' (replace t ref p moved node')
  unfolding replace
  replace_lem t ref p node node' false points apart there =
      let (ne, inner, cell) = load-Loads t.nodes p node there in
      let inside : ltb (p / 2 - 1) (length t.nodes) ≡ true =
        ground (arith, load-within t.nodes p node there) in
      let t' : Tree = record t { nodes = set t.nodes (p / 2 - 1) (some node') } in
      (
        t',
        p,
        rw (there, inside) refl,
        Linked-same t t' ref p points refl
            (λ g n e other. load-store-other t.nodes p node there (some node') g n other e) apart,
        load-store-same t.nodes p node there node',
        inner,
        ne,
        inl refl,
        λ g n e other apart. load-store-other t.nodes p node there (some node') g n other e,
      )
  replace_lem t ref p node node' true points apart there =
      let (t1, placed, linked, loaded, frame) = place_lem t ref p node' points in
      let q = address_of (length t.nodes) in
      let there1 = frame p node there apart in
      let inside : ltb (p / 2 - 1) (length t1.nodes) ≡ true =
        ground (arith, load-within t1.nodes p node there1) in
      let fresh : q ≢ p = λ same. load-fresh t.nodes p node there (sym same) in
      (
        record t1 { nodes = set t1.nodes (p / 2 - 1) none },
        q,
        rw (placed, there1, inside) refl,
        Linked-store t t1 ref q p node linked apart there1,
        load-store-other t1.nodes p node there1 none q node' fresh loaded,
        ground arith,
        omega arith,
        inr refl,
        λ g n e other apart'.
            load-store-other t1.nodes p node there1 none g n other (frame g n e apart'),
      )
