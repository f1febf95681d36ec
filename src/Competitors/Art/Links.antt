-- ===== src/Competitors/Art/Links.antt =====
-- What a `Node **` points to, and a write through it (src/competitors/art.hpp).
use learned_secondary_index.Common.{
  ◌-◌, ◌/◌, ◌≡◌, ◌≢◌, refl, ◌∙◌, sym, ltb, true, some, [], ◌∷◌, ◌++◌, length, get_elem?, arith,
}
use learned_secondary_index.Common.Run.{done}
use learned_secondary_index.Common.Arrays.{set}
use learned_secondary_index.Common.ArrayLaws.{get_elem?-within}
use learned_secondary_index.Competitors.Art.Node.{Ptr, Node, children}
use learned_secondary_index.Competitors.Art.Heap.{
  Nodes, load, address_of, Tree, Ref, tree_ref, null_node, slot, write_ref,
}
use learned_secondary_index.Competitors.Art.Insert.{place}
use learned_secondary_index.Competitors.Art.HeapLaws.{
  load-within, load-store-same, load-store-other, load-append, load-allocate, load-fresh,
}
use learned_secondary_index.Competitors.Art.Slot.{rewritten}
use learned_secondary_index.Competitors.Art.SamePrefix.{done_inj}

abbrev pub Points : Tree → Ref → Ptr → Type 0
Points t tree_ref p = t.root ≡ p
Points t null_node p = p ≢ p
Points t (slot q i) p =
    (node : Node) × (load t.nodes q ≡ done node) × (get_elem? (children node) i ≡ some p)

-- a node that has not the slot
abbrev pub NotOf : Ref → Ptr → Type 0
NotOf tree_ref g = Unit
NotOf null_node g = Unit
NotOf (slot q i) g = g ≢ q

-- the other tree has the pointer `p` there
abbrev pub Linked : Tree → Tree → Ref → Ptr → Type 0
Linked t t' tree_ref p = t'.root ≡ p
Linked t t' null_node p = p ≢ p
Linked t t' (slot q i) p =
    (t'.root ≡ t.root)
    × ((node : Node) → load t.nodes q ≡ done node → load t'.nodes q ≡ done (rewritten node i p))

-- what does not change
abbrev pub Frame : Tree → Tree → Ref → Type 0
Frame t t' ref =
    (g : Ptr) (n : Node) → load t.nodes g ≡ done n → NotOf ref g → load t'.nodes g ≡ done n

pub write_ref_lem :
    (t : Tree) (ref : Ref) (p q : Ptr)
    → Points t ref p
    → (t' : Tree) × (write_ref t ref q ≡ done t') × Linked t t' ref q × Frame t t' ref
unfolding write_ref
write_ref_lem t tree_ref p q points = (record t { root = q }, refl, refl, λ g n there apart. there)
write_ref_lem t null_node p q points = absurd (points refl)
write_ref_lem t (slot r i) p q (node, there, here) =
    let inside : ltb i (length (children node)) ≡ true =
      ground (arith, get_elem?-within (children node) i p here) in
    let inside' : ltb (r / 2 - 1) (length t.nodes) ≡ true =
      ground (arith, load-within t.nodes r node there) in
    (
      record t { nodes = set t.nodes (r / 2 - 1) (some (rewritten node i q)) },
      rw (there, inside, inside') refl,
      (
        refl,
        λ old e.
            let same : old ≡ node = done_inj old node (sym e ∙ there) in
            rw same (load-store-same t.nodes r node there (rewritten node i q)),
      ),
      λ g n e apart. load-store-other t.nodes r node there (some (rewritten node i q)) g n apart e,
    )

Points-append :
    (t : Tree) (more : Nodes) (ref : Ref) (p : Ptr)
    → Points t ref p
    → Points (record t { nodes = t.nodes ++ more }) ref p
Points-append t more tree_ref p points = points
Points-append t more null_node p points = points
Points-append t more (slot q i) p (node, there, here) =
    (node, load-append t.nodes more q node there, here)

Linked-append :
    (t : Tree) (more : Nodes) (t' : Tree) (ref : Ref) (p : Ptr)
    → Linked (record t { nodes = t.nodes ++ more }) t' ref p
    → Linked t t' ref p
Linked-append t more t' tree_ref p linked = linked
Linked-append t more t' null_node p linked = linked
Linked-append t more t' (slot q i) p (root, change) =
    (root, λ node there. change node (load-append t.nodes more q node there))

NotOf-fresh :
    (t : Tree) (ref : Ref) (p : Ptr) → Points t ref p → NotOf ref (address_of (length t.nodes))
NotOf-fresh t tree_ref p points = tt
NotOf-fresh t null_node p points = tt
NotOf-fresh t (slot q i) p (node, there, here) = λ same. load-fresh t.nodes q node there (sym same)

-- a new node takes the place of what was there
pub place_lem :
    (t : Tree) (ref : Ref) (p : Ptr) (node : Node)
    → Points t ref p
    → (t' : Tree) × (place t ref node ≡ done t')
      × Linked t t' ref (address_of (length t.nodes))
      × (load t'.nodes (address_of (length t.nodes)) ≡ done node)
      × Frame t t' ref
unfolding place
place_lem t ref p node points =
    let more = some node ∷ [] in
    let q = address_of (length t.nodes) in
    let (t', run, linked, frame) =
      write_ref_lem (record t { nodes = t.nodes ++ more }) ref p q
        (Points-append t more ref p points) in
    (
      t',
      run,
      Linked-append t more t' ref q linked,
      frame q node (load-allocate t.nodes node) (NotOf-fresh t ref p points),
      λ g n there apart. frame g n (load-append t.nodes more g n there) apart,
    )
