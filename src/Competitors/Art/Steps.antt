-- ===== src/Competitors/Art/Steps.antt =====
-- One round of the loop of `ART::Iterator::next` (src/competitors/art.hpp).
use learned_secondary_index.Common.{
  ℕ, suc, ◌+◌, ◌-◌, ◌<◌, ◌≡◌, ◌≢◌, refl, ap, ◌∙◌, ltb, ◌==◌, inl, inr, ◌⊎◌, true, false, some, List,
  [], ◌++◌, length, get_elem?, arith,
}
use learned_secondary_index.Common.Run.{done}
use learned_secondary_index.Common.Arrays.{set}
use learned_secondary_index.Common.ArrayLaws.{length-set, get_elem?-set, get_elem?-within}
use learned_secondary_index.Competitors.Art.Node.{Ptr, is_leaf, get_leaf_value, Node}
use learned_secondary_index.Competitors.Art.Heap.{Nodes, load}
use learned_secondary_index.Competitors.Art.Iterator.{
  IteratorEntry, push, next_loop, step_child, stack_size,
}
use learned_secondary_index.Competitors.Art.Cursor.{step_child_lem}
use learned_secondary_index.Competitors.Art.Subtree.{Below}
use learned_secondary_index.Competitors.Art.Kids.{Kids-next}
use learned_secondary_index.Competitors.Art.Position.{standing, Stands, Rest, Rest-set}

pub suc-nonzero : (n : ℕ) → (suc n == 0) ≡ false
suc-nonzero n = ground arith

pub last_index : (n : ℕ) → suc n - 1 ≡ n
last_index n = omega arith

module _ (nodes : Nodes) (fuel : ℕ) (value : ℕ) (stack : List IteratorEntry) where
  pub next_loop-end :
      next_loop (suc fuel) nodes (standing value 0 stack) ≡ done (false, standing value 0 stack)
  unfolding next_loop
  next_loop-end = refl

  module _ (n : ℕ) (e : IteratorEntry) (here : get_elem? stack n ≡ some e) where
    within_stack : ltb n (length stack) ≡ true
    within_stack = ground (arith, get_elem?-within stack n e here)

    pub next_loop-leaf :
        is_leaf e.node ≡ true
        → next_loop (suc fuel) nodes (standing value (suc n) stack)
          ≡ done (true, standing (get_leaf_value e.node) (suc n) stack)
    unfolding next_loop
    next_loop-leaf leaf = rw (suc-nonzero n, last_index n, here, leaf) refl

    -- the stack when the position of the last entry has changed
    abbrev pub moved : (p : ℕ) → List IteratorEntry
    moved p = set stack n (record { node = e.node; pos = p })

    -- the stack with a child on it
    abbrev pub entered : (c p : ℕ) → List IteratorEntry
    entered c p = set (moved p) (suc n) (record { node = c; pos = 0 })

    module _ (node : Node) (c p : ℕ) (inner : is_leaf e.node ≡ false)
        (there : load nodes e.node ≡ done node) (step : step_child node e.pos ≡ done (c, p)) where
      pub next_loop-leave :
          c ≡ 0
          → next_loop (suc fuel) nodes (standing value (suc n) stack)
            ≡ next_loop fuel nodes (standing value n (moved p))
      unfolding next_loop
      next_loop-leave null =
          rw (suc-nonzero n, last_index n, here, inner, there, step, within_stack, null)
            (ap (λ d. next_loop fuel nodes (standing value d (moved p))) (last_index n))

      pub next_loop-enter :
          c ≢ 0
          → suc n < length stack
          → next_loop (suc fuel) nodes (standing value (suc n) stack)
            ≡ next_loop fuel nodes (standing value (suc (suc n)) (entered c p))
      unfolding next_loop push
      next_loop-enter some_child lt =
          let test : (c == 0) ≡ false = ground arith in
          let size : length (moved p) ≡ length stack =
            length-set stack n (record { node = e.node; pos = p }) in
          let inside : ltb (suc n) (length (moved p)) ≡ true = ground arith in
          let deeper : suc n + 1 ≡ suc (suc n) = omega arith in
          rw
            (
              suc-nonzero n,
              last_index n,
              here,
              inner,
              there,
              step,
              within_stack,
              test,
              inside,
              deeper,
            )
            refl

-- A node that stands on a stack leaves no leaves over and is left, or its next child is entered.
module _ (nodes : Nodes) (dataset : List ℕ) where
  abbrev pub Turn : (fuel value n d : ℕ) → (stack : List IteratorEntry) (ts rs : List ℕ) → Type 0
  Turn fuel value n d stack ts rs =
      ((ts ≡ [])
        × ((stack' : List IteratorEntry) × (next_loop (suc fuel) nodes
                (standing value (suc n) stack)
              ≡ next_loop fuel nodes (standing value n stack'))
            × (length stack' ≡ length stack)
            × Rest nodes dataset stack' n rs))
      ⊎ ((depth : ℕ) × (c : Ptr) × (us : List ℕ) × (vs : List ℕ) × (stack' : List IteratorEntry)
          × (next_loop (suc fuel) nodes (standing value (suc n) stack)
              ≡ next_loop fuel nodes (standing value (suc (suc n)) stack'))
          × (length stack' ≡ length stack)
          × (get_elem? stack' (suc n) ≡ some (record { node = c; pos = 0 }))
          × Below nodes dataset depth c us
          × (d < depth)
          × Rest nodes dataset stack' (suc n) (vs ++ rs)
          × (ts ≡ us ++ vs))

  pub turn :
      (fuel value n : ℕ) (stack : List IteratorEntry) (e : IteratorEntry) (ts rs : List ℕ)
      → get_elem? stack n ≡ some e
      → length stack ≡ stack_size
      → (s : Stands nodes dataset e n ts) → Rest nodes dataset stack n rs
      → Turn fuel value n s.depth stack ts rs
  turn fuel value n stack e ts rs here size s rest =
      let (c, p, run, next_child) = step_child_lem s.node s.b s.valid s.bounded in
      let run' : step_child s.node e.pos ≡ done (c, p) = rw s.at_byte run in
      let old : Rest nodes dataset (set stack n (record { node = e.node; pos = p })) n rs =
        Rest-set nodes dataset stack n n rs (record { node = e.node; pos = p }) (omega arith)
          rest in
      let size' = length-set stack n (record { node = e.node; pos = p }) in
      elim (Kids-next nodes dataset c p s.kids next_child) [
        | inl (null, none_left) ↦ inl (
          none_left,
          (
            moved nodes fuel value stack n e here p,
            next_loop-leave nodes fuel value stack n e here s.node c p s.inner s.there run' null,
            size',
            old,
          ),
        )
        | inr (child, (k, us, vs, lt, behind, below, kids, whole)) ↦
            let inside : suc n < length stack = omega (arith, s.shallow, s.within, size) in
            let top' : get_elem? (moved nodes fuel value stack n e here p) n
                ≡ some (record { node = e.node; pos = p }) =
              get_elem?-set stack n (record { node = e.node; pos = p }) (omega arith) in
            let stands : Stands nodes dataset (record { node = e.node; pos = p }) n vs = record {
              node = s.node;
              depth = s.depth;
              b = suc k;
              inner = s.inner;
              there = s.there;
              valid = s.valid;
              at_byte = behind;
              bounded = omega arith;
              shallow = s.shallow;
              within = s.within;
              kids = kids;
            } in
            let child_entry : IteratorEntry = record { node = c; pos = 0 } in
            inr (
              suc s.depth,
              c,
              us,
              vs,
              entered nodes fuel value stack n e here c p,
              next_loop-enter nodes fuel value stack n e here s.node c p s.inner s.there run' child
                  inside,
              length-set (moved nodes fuel value stack n e here p) (suc n) child_entry ∙ size',
              get_elem?-set (moved nodes fuel value stack n e here p) (suc n) child_entry
                  (omega (arith, size')),
              below,
              omega arith,
              Rest-set nodes dataset (moved nodes fuel value stack n e here p) (suc n) (suc n)
                  (vs ++ rs) child_entry (omega arith)
                  (record { node = e.node; pos = p }, vs, rs, top', stands, old, refl),
              whole,
            )
      ]
