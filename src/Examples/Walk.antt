-- ===== src/Examples/Walk.antt =====
-- A radix tree of two keys, the leaves below its root, and the results about lookups in it.
use learned_secondary_index.Common.{
  ℕ, zero, suc, ◌+◌, ◌^◌, ◌≤◌, ◌<◌, ◌≡◌, refl, ◌∙◌, ◌==◌, inr, true, false, some, [], ◌∷◌, ◌++◌,
  get_or, replicate, arith,
}
use learned_secondary_index.Common.Run.{done}
use learned_secondary_index.Instances.Sort.{sort}
use learned_secondary_index.Competitors.Art.Node.{Node, node4}
use learned_secondary_index.Competitors.Art.Heap.{Nodes, load, Tree, tree_ref, swap_bytes}
use learned_secondary_index.Competitors.Art.Children
use learned_secondary_index.Competitors.Art.Heap
use learned_secondary_index.Competitors.Art.Insert
use learned_secondary_index.Competitors.Art.Iterator.{Iterator}
use learned_secondary_index.Competitors.Art.Search.{child_at}
use learned_secondary_index.Competitors.Art.Contract.{IsNode, child_at-node4}
use learned_secondary_index.Competitors.Art.Index
use learned_secondary_index.Competitors.Art.Index.{Art}
use learned_secondary_index.Competitors.Art.Subtree.{byte, leaf, inner, Kids, end, gap, kid}
use learned_secondary_index.Competitors.Art.Walk.{walk}
use learned_secondary_index.Competitors.Art.Selection.{from_key}
use learned_secondary_index.Competitors.Art.Increasing.{Increasing}
use learned_secondary_index.Competitors.Art.Lookup.{HasLeaves, lookup-walk}
use learned_secondary_index.Competitors.Art.Added.{Inserted}
use learned_secondary_index.Competitors.Art.LeafSplit.{insert_at_leaf-Inserted}

abbrev fork : Node
fork =
    node4 (record { prefix_length = 6; count = 2; prefix = replicate 17 0 }) (0 ∷ 1 ∷ 0 ∷ 0 ∷ [])
      (1 ∷ 3 ∷ 0 ∷ 0 ∷ [])

abbrev two_keys : Art
two_keys = record { dataset = 5 ∷ 300 ∷ []; tree = record { root = 2; nodes = some fork ∷ [] } }

two_keys_built : Index.construct sort (5 ∷ 300 ∷ []) ≡ done two_keys
unfolding Index.construct Insert.insert sort Children.insert_child Heap.load_key
    Children.insert_node4 Children.place_node4 Children.insert_sorted
two_keys_built = refl

fork-IsNode : IsNode fork
fork-IsNode = record {
  fits = omega arith;
  prefix = refl;
  keys = refl;
  slots = refl;
  ascending = (omega arith, (omega arith, tt), (omega arith, tt, tt));
  nonnull = (omega arith, (omega arith, tt));
}

fork-free : (b : ℕ) → 2 ≤ b → child_at fork b ≡ done 0
fork-free b le =
    let first : (0 == b) ≡ false = ground arith in
    let second : (1 == b) ≡ false = ground arith in
    child_at-node4 (record { prefix_length = 6; count = 2; prefix = replicate 17 0 })
      (0 ∷ 1 ∷ 0 ∷ 0 ∷ []) (1 ∷ 3 ∷ 0 ∷ 0 ∷ []) b fork-IsNode
    ∙ rw (first, second) refl

none_left :
    (rounds b : ℕ) → 2 ≤ b → b + rounds ≡ 256 → Kids (some fork ∷ []) (5 ∷ 300 ∷ []) 6 fork b []
none_left zero b le whole = end (omega arith) refl
none_left (suc rounds) b le whole =
    gap (omega arith) (fork-free b le) (none_left rounds (suc b) (omega arith) (omega arith))

zero_bytes : (x : ℕ) → x < 2 ^ 16 → (i : ℕ) → i < 6 → byte x (0 + i) ≡ get_or (replicate 17 0) i 0
zero_bytes x small zero lt = omega arith
zero_bytes x small (suc zero) lt = omega arith
zero_bytes x small (suc (suc zero)) lt = omega arith
zero_bytes x small (suc (suc (suc zero))) lt = omega arith
zero_bytes x small (suc (suc (suc (suc zero)))) lt = omega arith
zero_bytes x small (suc (suc (suc (suc (suc zero))))) lt = omega arith
zero_bytes x small (suc (suc (suc (suc (suc (suc i)))))) lt = absurd (omega arith)

two_keys-HasLeaves : HasLeaves two_keys (0 ∷ 1 ∷ [])
unfolding child_at Children.find_child load
two_keys-HasLeaves = inr (
    inner fork refl (omega arith) refl fork-IsNode refl (omega arith)
      (zero_bytes 5 (omega arith), (zero_bytes 300 (omega arith), tt)) (λ e. ground arith)
      (kid (omega arith) 1 (omega arith) refl (0 ∷ []) (1 ∷ [])
        (leaf refl (omega arith) 5 refl (omega arith) refl) (refl, tt)
        (kid (omega arith) 3 (omega arith) refl (1 ∷ []) []
          (leaf refl (omega arith) 300 refl (omega arith) refl) (refl, tt)
          (none_left 254 2 (omega arith) refl) refl)
        refl))

lookup-walk_example :
    (it : Iterator) × (Index.lookup two_keys true 260 ≡ done it)
    × (walk 3 (Index.rounds two_keys) two_keys.tree.nodes it
        ≡ done (from_key two_keys.dataset 260 (0 ∷ 1 ∷ [])))
    × Increasing two_keys.dataset (from_key two_keys.dataset 260 (0 ∷ 1 ∷ []))
lookup-walk_example =
    lookup-walk two_keys (0 ∷ 1 ∷ []) 260 true 3 two_keys-HasLeaves (omega arith) (omega arith)

abbrev one_leaf : Tree
one_leaf = record { root = 1; nodes = [] }

insert_at_leaf-Inserted_example :
    Inserted (5 ∷ 300 ∷ []) one_leaf tree_ref 0 1 (0 ∷ []) [] (
      Insert.insert_at_leaf (5 ∷ 300 ∷ []) (swap_bytes 300 ++ swap_bytes 1) 1 one_leaf 1 tree_ref 0)
insert_at_leaf-Inserted_example =
    insert_at_leaf-Inserted (5 ∷ 300 ∷ []) (swap_bytes 1) 300 1 (omega arith) (omega arith) refl
      one_leaf tree_ref 1 0 5 refl refl (omega arith) refl (omega arith)
      (λ i lt. absurd (omega arith)) (omega arith)
