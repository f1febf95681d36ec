-- ===== src/Competitors/Art/Lookup.antt =====
-- `lookup` of the ART index (src/competitors/art.hpp) on a whole tree: where the iterator stands that
-- it returns, and what is before it.
use learned_secondary_index.Common.{
  ℕ, zero, suc, ◌^◌, ◌≤◌, ◌<◌, ◌≡◌, ◌≢◌, refl, sym, ltb, ◌==◌, ◌⊎◌, inl, inr, Bool, Bool-cases,
  true, false, List, [], ◌∷◌, ◌++◌, length, get_or, replicate, arith,
}
use mathlib.Core.List.{append-nil}
use learned_secondary_index.Common.Run.{done}
use learned_secondary_index.Competitors.Art.Node.{Ptr}
use learned_secondary_index.Competitors.Art.Heap.{Nodes, swap_bytes}
use learned_secondary_index.Competitors.Art.Iterator.{Iterator, reset}
use learned_secondary_index.Competitors.Art.Search.{bound}
use learned_secondary_index.Competitors.Art.Index.{Art, lookup, end, rounds}
use learned_secondary_index.Competitors.Art.Subtree.{Each-map, Below, leaf, inner}
use learned_secondary_index.Competitors.Art.Position.{standing, Yields}
use learned_secondary_index.Competitors.Art.Walk.{walk, walk-leaf}
use learned_secondary_index.Competitors.Art.Selection.{from_key, Fits, Near, Below-Fits}
use learned_secondary_index.Competitors.Art.Increasing.{
  Increasing, Increasing-from_key, Shares, Below-Increasing,
}
use learned_secondary_index.Competitors.Art.Bound.{prefix_lem}
use learned_secondary_index.Competitors.Art.BoundLoop.{read_within, Bounded, at_leaf}
use learned_secondary_index.Competitors.Art.BoundNode.{at_prefix, at_child}

module _ (fuel : ℕ) (nodes : Nodes) (dataset behind : List ℕ) (k : ℕ) (fits : k < 2 ^ 64)
    (enough : 18 ≤ fuel) where
  bounded : (rounds : ℕ) → Bounded fuel nodes dataset behind k fits enough rounds
  bounded zero value n d p stack ts rs enough_rounds size le (leaf l low x at small e) near rest =
      absurd (omega arith)
  bounded zero value n d p stack ts rs enough_rounds size le
        (inner node l some_node at w whole within path ne kids) near rest =
      absurd (omega arith)
  bounded (suc rounds) value n d p stack ts rs enough_rounds size le (leaf l low x at small e) near
        rest =
      let (old, here) = read_within stack n (omega arith) in
      at_leaf fuel nodes dataset behind k fits enough rounds value n d p stack ts rs size le low old
        here near rest x l at small e
  bounded (suc rounds) value n d p stack ts rs enough_rounds size le
        (inner node l some_node at w whole within path ne kids) near rest =
      let (old, here) = read_within stack n (omega arith) in
      elim (prefix_lem fuel nodes dataset behind k fits p d node at whole within) [
        | inl (run, same) ↦
            at_child fuel nodes dataset behind k fits enough rounds value n d p stack ts rs size le
              (omega arith) old here near rest node at l w within path kids run same enough_rounds
              (bounded rounds)
        | inr (i, run, less, differ, before) ↦
            at_prefix fuel nodes dataset behind k fits enough rounds value n d p stack ts rs size le
              (omega arith) old here near rest node at l w within path kids i run less whole differ
              before
      ]

-- an index whose tree has the leaves `ts`, which may be none
abbrev pub HasLeaves : Art → (ts : List ℕ) → Type 0
HasLeaves index ts =
    ((index.tree.root ≡ 0) × (ts ≡ [])) ⊎ Below index.tree.nodes index.dataset 0 index.tree.root ts

length-from_key :
    (dataset : List ℕ) (k : ℕ) (ts : List ℕ) → length (from_key dataset k ts) ≤ length ts
length-from_key dataset k [] = omega arith
length-from_key dataset k (t ∷ ts) = elim (Bool-cases (ltb (get_or dataset t 0) k)) [
  | inl e ↦ rw e (omega (arith, length-from_key dataset k ts))
  | inr e ↦ rw e (omega (arith, length-from_key dataset k ts))
]

Below-nonnull :
    {nodes : Nodes} {dataset : List ℕ} {d : ℕ} {p : Ptr} {ts : List ℕ}
    → Below nodes dataset d p ts
    → p ≢ 0
Below-nonnull (leaf l low x at small e) null = absurd (ground (arith, rw null at l))
Below-nonnull (inner node l some_node at w whole within path ne kids) null = some_node null

walk-Yields :
    (index : Art) (ts : List ℕ) (steps : ℕ) (lowerbound : Bool) (k : ℕ)
    → length ts < steps
    → Yields index.tree.nodes index.dataset
        (bound
          (rounds index)
          index.tree.nodes
          index.dataset
          (swap_bytes k ++ replicate 8 0)
          8
          true
          index.tree.root
          (reset false))
        ts
    → (it : Iterator) × (lookup index lowerbound k ≡ done it)
      × (walk steps (rounds index) index.tree.nodes it ≡ done ts)
unfolding lookup end reset
walk-Yields index [] zero lowerbound k lt yields = absurd (omega arith)
walk-Yields index [] (suc steps) lowerbound k lt (it, run) = (end index, rw run refl, refl)
walk-Yields index (t ∷ ts) steps lowerbound k lt (n, stack, run, a) = (
  standing t (suc n) stack,
  rw run refl,
  walk-leaf index.tree.nodes index.dataset (rounds index) steps t n stack ts (omega arith)
      (omega arith) a,
)

-- In a radix tree that is empty or well formed, a lookup of any key below 2 ^ 64, with either
-- value of its template parameter, returns an iterator, and a walk from there by `it++`, as long
-- as the iterator is not `end()`, ends and reads exactly the leaves whose keys are not below the
-- key, each once and in ascending order of their keys. In a well-formed tree every node is well
-- formed, the keys of the leaves are below 2 ^ 64 and have the compressed paths above them, each
-- child stands under the byte that the keys below it have there, and the keys part within their 8
-- bytes. The walk may take more steps than there are leaves.
pub lookup-walk :
    (index : Art) (ts : List ℕ) (k : ℕ) (lowerbound : Bool) (steps : ℕ)
    → HasLeaves index ts
    → k < 2 ^ 64
    → length ts < steps
    → (it : Iterator) × (lookup index lowerbound k ≡ done it)
      × (walk steps (rounds index) index.tree.nodes it ≡ done (from_key index.dataset k ts))
      × Increasing index.dataset (from_key index.dataset k ts)
unfolding bound reset
lookup-walk index ts k lowerbound steps (inl (null, empty)) fits lt =
    let (it, run, all) =
      walk-Yields index (from_key index.dataset k ts) steps lowerbound k
        (rw empty (omega (arith, lt)))
        (rw (empty, null) (standing 0 0 (reset false).stack, refl)) in
    (it, run, all, rw empty tt)
lookup-walk index ts k lowerbound steps (inr below) fits lt =
    let test : (index.tree.root == 0) ≡ false = ground (arith, Below-nonnull below) in
    let small = Below-Fits index.tree.nodes index.dataset below in
    let near =
      Each-map (Fits index.dataset) (Near index.dataset k fits 0) ts
        (λ t fit. (fit, λ i less. absurd (omega arith))) small in
    let share =
      Each-map (Fits index.dataset) (Shares index.dataset 0 (λ i. 0)) ts
        (λ t fit. (fit, λ i less. absurd (omega arith))) small in
    let found =
      bounded (rounds index) index.tree.nodes index.dataset (replicate 8 0) k fits (omega arith)
        (rounds index) 0 0 0 index.tree.root (reset false).stack ts [] (omega arith) refl
        (omega arith) below near refl in
    let (it, run, all) =
      walk-Yields index (from_key index.dataset k ts) steps lowerbound k
        (omega (arith, length-from_key index.dataset k ts))
        (rw (test, sym (append-nil (from_key index.dataset k ts))) found) in
    (
      it,
      run,
      all,
      Increasing-from_key index.dataset k ts
          (Below-Increasing index.tree.nodes index.dataset (λ i. 0) below share),
    )
