-- ===== src/Competitors/Art/HeapLaws.antt =====
-- Loads after stores and allocations (src/competitors/art.hpp).
use learned_secondary_index.Common.{
  ℕ, zero, suc, ◌+◌, ◌-◌, ◌*◌, ◌/◌, ◌%◌, ◌<◌, ◌≡◌, ◌≢◌, refl, ap, ◌∙◌, ltb, ◌==◌, inl, inr,
  Bool-cases, true, false, Option, none, some, List, [], ◌∷◌, ◌++◌, length, get_elem?, arith,
  Option-cases,
}
use learned_secondary_index.Common.Run.{done, read}
use learned_secondary_index.Common.Arrays.{set}
use learned_secondary_index.Common.ArrayLaws.{get_elem?-set, get_elem?-append, get_elem?-within}
use learned_secondary_index.Competitors.Art.Node.{Ptr, is_leaf, Node}
use learned_secondary_index.Competitors.Art.Heap.{Nodes, load, store, address_of}

get_elem?-set-other :
    {A : Type 0} (a : List A) (i j : ℕ) (v : A) → j ≢ i → get_elem? (set a i v) j ≡ get_elem? a j
get_elem?-set-other [] i j v ne = refl
get_elem?-set-other (x ∷ a) zero zero v ne = absurd (ne refl)
get_elem?-set-other (x ∷ a) zero (suc j) v ne = refl
get_elem?-set-other (x ∷ a) (suc i) zero v ne = refl
get_elem?-set-other (x ∷ a) (suc i) (suc j) v ne = get_elem?-set-other a i j v (omega (arith, ne))

get_elem?-end : {A : Type 0} (a : List A) (x : A) → get_elem? (a ++ x ∷ []) (length a) ≡ some x
get_elem?-end [] x = refl
get_elem?-end (y ∷ a) x = get_elem?-end a x

-- what a pointer is that can be loaded
abbrev pub Loads : Nodes → Ptr → Node → Type 0
Loads nodes p node =
    (p ≢ 0) × (is_leaf p ≡ false) × (get_elem? nodes (p / 2 - 1) ≡ some (some node))

cell_lem : (cell : Option Node) (node : Node) → read cell ≡ done node → cell ≡ some node
cell_lem none node e = absurd (ground (arith, e))
cell_lem (some n) node e = ground (arith, e)

pub load-Loads :
    (nodes : Nodes) (p : Ptr) (node : Node) → load nodes p ≡ done node → Loads nodes p node
unfolding load
load-Loads nodes p node e = elim (Bool-cases (p == 0)) [
  | inl null ↦ absurd (ground (arith, rw null at e))
  | inr some_pointer ↦ elim (Bool-cases (is_leaf p)) [
    | inl leaf ↦ absurd (ground (arith, rw (some_pointer, leaf) at e))
    | inr inner ↦ elim (Option-cases (get_elem? nodes (p / 2 - 1))) [
      | inl free ↦ absurd (ground (arith, rw (some_pointer, inner, free) at e))
      | inr (cell, here) ↦
          let e' = rw (some_pointer, inner, here) at e in
          (
            λ null. ground (arith, null, some_pointer),
            inner,
            here ∙ ap some (cell_lem cell node e'),
          )
    ]
  ]
]

pub Loads-load :
    (nodes : Nodes) (p : Ptr) (node : Node) → Loads nodes p node → load nodes p ≡ done node
unfolding load
Loads-load nodes p node (ne, inner, here) =
    let test : (p == 0) ≡ false = ground arith in rw (test, inner, here) refl

pub load-within :
    (nodes : Nodes) (p : Ptr) (node : Node) → load nodes p ≡ done node → p / 2 - 1 < length nodes
load-within nodes p node e =
    let (ne, inner, here) = load-Loads nodes p node e in
    get_elem?-within nodes (p / 2 - 1) (some node) here

-- a store to a node that was loaded
module _ (nodes : Nodes) (p : Ptr) (old : Node) (there : load nodes p ≡ done old) where
  pub store_lem : (cell : Option Node) → store nodes p cell ≡ done (set nodes (p / 2 - 1) cell)
  unfolding store
  store_lem cell =
      let (ne, inner, here) = load-Loads nodes p old there in
      let inside : ltb (p / 2 - 1) (length nodes) ≡ true =
        ground (arith, get_elem?-within nodes (p / 2 - 1) (some old) here) in
      rw (there, inside) refl

  pub load-store-same : (node : Node) → load (set nodes (p / 2 - 1) (some node)) p ≡ done node
  load-store-same node =
      let (ne, inner, here) = load-Loads nodes p old there in
      Loads-load (set nodes (p / 2 - 1) (some node)) p node (
        ne,
        inner,
        get_elem?-set nodes (p / 2 - 1) (some node)
            (get_elem?-within nodes (p / 2 - 1) (some old) here),
      )

  pub load-store-other :
      (cell : Option Node) (q : Ptr) (node : Node)
      → q ≢ p
      → load nodes q ≡ done node
      → load (set nodes (p / 2 - 1) cell) q ≡ done node
  load-store-other cell q node other e =
      let (ne, inner, here) = load-Loads nodes p old there in
      let (ne', inner', here') = load-Loads nodes q node e in
      let even : p % 2 ≢ 1 = λ odd. ground (arith, odd, inner) in
      let even' : q % 2 ≢ 1 = λ odd. ground (arith, odd, inner') in
      Loads-load (set nodes (p / 2 - 1) cell) q node (
        ne',
        inner',
        get_elem?-set-other nodes (p / 2 - 1) (q / 2 - 1) cell
              (λ same. other (omega (arith, ne, ne', even, even', same)))
            ∙ here',
      )

pub load-append :
    (nodes more : Nodes) (q : Ptr) (node : Node)
    → load nodes q ≡ done node
    → load (nodes ++ more) q ≡ done node
load-append nodes more q node e =
    let (ne, inner, here) = load-Loads nodes q node e in
    Loads-load (nodes ++ more) q node
      (ne, inner, get_elem?-append nodes more (q / 2 - 1) (some node) here)

pub load-allocate :
    (nodes : Nodes) (node : Node)
    → load (nodes ++ some node ∷ []) (address_of (length nodes)) ≡ done node
load-allocate nodes node =
    let index : 2 * (length nodes + 1) / 2 - 1 ≡ length nodes = omega arith in
    Loads-load (nodes ++ some node ∷ []) (address_of (length nodes)) node
      (omega arith, ground arith, rw index (get_elem?-end nodes (some node)))

-- a node that is there is not at the next address
pub load-fresh :
    (nodes : Nodes) (q : Ptr) (node : Node)
    → load nodes q ≡ done node
    → q ≢ address_of (length nodes)
load-fresh nodes q node e same =
    let (ne, inner, here) = load-Loads nodes q node e in
    let within = get_elem?-within nodes (q / 2 - 1) (some node) here in omega (arith, within, same)
