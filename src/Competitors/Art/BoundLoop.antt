-- ===== src/Competitors/Art/BoundLoop.antt =====
-- `bound` (src/competitors/art.hpp) stops before the leaves whose keys are not below the key that it
-- looks for.
use learned_secondary_index.Common.{
  ℕ, zero, suc, ◌+◌, ◌^◌, ◌≤◌, ◌<◌, ◌≡◌, refl, ap, ◌∙◌, sym, ltb, inl, inr, true, false, some, List,
  [], ◌∷◌, ◌++◌, length, get_or, get_elem?, arith,
}
use learned_secondary_index.Common.Arrays.{at}
use learned_secondary_index.Common.ArrayLaws.{length-set, get_elem?-set}
use learned_secondary_index.Competitors.Art.Node.{Ptr, is_leaf, get_leaf_value, Node, header}
use learned_secondary_index.Competitors.Art.Heap.{Nodes}
use learned_secondary_index.Competitors.Art.Iterator.{IteratorEntry, stack_size}
use learned_secondary_index.Competitors.Art.Search.{bound_loop}
use learned_secondary_index.Competitors.Art.Subtree.{
  byte, Each, Each-map, Each-both, HasPrefix, Below,
}
use learned_secondary_index.Competitors.Art.Position.{standing, Rest, Rest-set, Yields}
use learned_secondary_index.Competitors.Art.Walk.{next-stack}
use learned_secondary_index.Competitors.Art.KeyOrder.{Agree}
use learned_secondary_index.Competitors.Art.Selection.{from_key, get_or-some, Near}
use learned_secondary_index.Competitors.Art.Bound.{key, Agree-from, bound_leaf_lem}
use learned_secondary_index.Competitors.Art.BoundSteps.{place, bound_loop-leaf}

pub read_within :
    {A : Type 0} (a : List A) (i : ℕ) → i < length a → (x : A) × (get_elem? a i ≡ some x)
read_within [] i lt = absurd (omega arith)
read_within (x ∷ a) zero lt = (x, refl)
read_within (y ∷ a) (suc i) lt = read_within a i (omega arith)

module _ (fuel : ℕ) (nodes : Nodes) (dataset behind : List ℕ) (k : ℕ) (fits : k < 2 ^ 64)
    (enough : 18 ≤ fuel) where
  -- what a call of the loop comes to that starts at `p`, below `d` bytes that are those of the key
  abbrev pub Bounded : (rounds : ℕ) → Type 0
  Bounded rounds =
      (value n d : ℕ) (p : Ptr) (stack : List IteratorEntry) (ts rs : List ℕ)
      → 9 ≤ rounds + d
      → length stack ≡ stack_size
      → n ≤ d
      → Below nodes dataset d p ts
      → Each (Near dataset k fits d) ts
      → Rest nodes dataset stack n rs
      → Yields nodes dataset
          (bound_loop fuel nodes dataset (key fuel nodes dataset behind k fits) 8 rounds true p d
            (standing value n stack))
          (from_key dataset k ts ++ rs)

  -- the leaves below a node have its compressed path
  pub Near-path :
      (d m : ℕ) (node : Node) (ts : List ℕ)
      → m ≤ (header node).prefix_length
      → ((i : ℕ) → i < m → byte k (d + i) ≡ get_or (header node).prefix i 0)
      → Each (HasPrefix nodes dataset d (header node).prefix_length (header node).prefix) ts
      → Each (Near dataset k fits d) ts
      → Each (Near dataset k fits (d + m)) ts
  Near-path d m node ts le same path near =
      Each-map
        (λ t.
          HasPrefix nodes dataset d (header node).prefix_length (header node).prefix t
          × Near dataset k fits d t)
        (Near dataset k fits (d + m)) ts
        (λ t (own, (small, agree)). (
          small,
          Agree-from d m (get_or dataset t 0) k agree
              (λ i lt. own i (omega arith) ∙ sym (same i lt)),
        ))
        (Each-both (HasPrefix nodes dataset d (header node).prefix_length (header node).prefix)
          (Near dataset k fits d) ts path near)

  module _ (rounds value n d : ℕ) (p : Ptr) (stack : List IteratorEntry) (ts rs : List ℕ)
      (size : length stack ≡ stack_size) (le : n ≤ d) (fits_depth : d ≤ 8) (old : IteratorEntry)
      (here : get_elem? stack n ≡ some old) (near : Each (Near dataset k fits d) ts)
      (rest : Rest nodes dataset stack n rs) where
    pub at_leaf :
        (x : ℕ)
        → is_leaf p ≡ true
        → get_elem? dataset (get_leaf_value p) ≡ some x
        → x < 2 ^ 64
        → ts ≡ get_leaf_value p ∷ []
        → Yields nodes dataset
            (bound_loop fuel nodes dataset
              (key fuel nodes dataset behind k fits)
              8
              (suc rounds)
              true
              p
              d
              (standing value n stack))
            (from_key dataset k ts ++ rs)
    at_leaf x l at small e =
        let lt : n < length stack = omega arith in
        let e' : IteratorEntry = record { node = p; pos = old.pos } in
        let own : get_or dataset (get_leaf_value p) 0 ≡ x =
          get_or-some dataset (get_leaf_value p) x at in
        let first : Each (Near dataset k fits d) (get_leaf_value p ∷ []) = rw e at near in
        let agree : Agree d x k = λ i less. ap (λ z. byte z i) (sym own) ∙ first.0.1 i less in
        let run =
          bound_loop-leaf fuel nodes dataset (key fuel nodes dataset behind k fits) value n stack lt
            rounds p d old here l in
        let stack' =
          place fuel nodes dataset (key fuel nodes dataset behind k fits) value n stack lt p
            old.pos in
        let size' = length-set stack n e' ∙ size in
        let rest' = Rest-set nodes dataset stack n n rs e' (omega arith) rest in
        elim (bound_leaf_lem fuel nodes dataset behind k fits (get_leaf_value p) n stack' p d x
          fits_depth small at agree) [
            | inl (above, stop) ↦
                let test : ltb (get_or dataset (get_leaf_value p) 0) k ≡ false =
                  ground (arith, own) in
                rw (e, test)
                  (
                    n,
                    stack',
                    run ∙ stop,
                    record {
                      shallow = omega arith;
                      size = size';
                      e = e';
                      here = get_elem?-set stack n e' lt;
                      leaf = l;
                      rest = rest';
                    },
                  )
            | inr (below, go) ↦
                let test : ltb (get_or dataset (get_leaf_value p) 0) k ≡ true =
                  ground (arith, own) in
                rw (e, test, run, go)
                  (next-stack nodes dataset fuel (get_leaf_value p) n stack' rs (omega arith) size'
                    rest')
          ]
