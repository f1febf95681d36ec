-- ===== src/Competitors/Art/Position.antt =====
-- What an iterator has before it: the leaves that the entries of its stack leave over
-- (src/competitors/art.hpp).
use learned_secondary_index.Common.{
  ℕ, zero, suc, ◌≤◌, ◌<◌, ◌≡◌, refl, ◌∙◌, true, false, Bool, some, List, [], ◌∷◌, ◌++◌, length,
  get_elem?, arith,
}
use learned_secondary_index.Common.Run.{Run, done}
use learned_secondary_index.Common.Arrays.{set}
use learned_secondary_index.Common.ArrayLaws.{get_elem?-set, get_elem?-set-before}
use learned_secondary_index.Competitors.Art.Node.{is_leaf, Node}
use learned_secondary_index.Competitors.Art.Heap.{Nodes, load}
use learned_secondary_index.Competitors.Art.Iterator.{IteratorEntry, Iterator, stack_size}
use learned_secondary_index.Competitors.Art.Contract.{IsNode}
use learned_secondary_index.Competitors.Art.Cursor.{pos_of}
use learned_secondary_index.Competitors.Art.Subtree.{Kids}

abbrev pub standing : (value depth : ℕ) → (stack : List IteratorEntry) → Iterator
standing value depth stack = record { is_end = false; value = value; depth = depth; stack = stack }

module _ (nodes : Nodes) (dataset : List ℕ) where
  -- Entry `n` of a stack stands at a node before the children for the bytes from `b` on.
  pub record Stands (e : IteratorEntry) (n : ℕ) (ts : List ℕ) : Type 0 where
    pub node : Node
    pub depth : ℕ
    pub b : ℕ
    pub inner : is_leaf e.node ≡ false
    pub there : load nodes e.node ≡ done node
    pub valid : IsNode node
    pub at_byte : e.pos ≡ pos_of node b
    pub bounded : b ≤ 256
    pub shallow : n ≤ depth
    pub within : depth < 8
    pub kids : Kids nodes dataset depth node b ts

  -- the leaves before the first `n` entries of a stack, those of the last entry first
  abbrev pub Rest : (stack : List IteratorEntry) (n : ℕ) (us : List ℕ) → Type 0
  Rest stack zero us = us ≡ []
  Rest stack (suc n) us =
      (e : IteratorEntry) × (ts : List ℕ) × (rs : List ℕ) × (get_elem? stack n ≡ some e)
      × Stands e n ts
      × Rest stack n rs
      × (us ≡ ts ++ rs)

  pub Rest-set :
      (stack : List IteratorEntry) (n m : ℕ) (us : List ℕ) (x : IteratorEntry)
      → n ≤ m
      → Rest stack n us
      → Rest (set stack m x) n us
  Rest-set stack zero m us x le rest = rest
  Rest-set stack (suc n) m us x le (e, ts, rs, here, stands, rest, whole) = (
    e,
    ts,
    rs,
    get_elem?-set-before stack m n x (omega arith) ∙ here,
    stands,
    Rest-set stack n m rs x (omega arith) rest,
    whole,
  )

  -- a node put on the stack
  pub Rest-place :
      (stack : List IteratorEntry) (n : ℕ) (e : IteratorEntry) (ts rs : List ℕ)
      → n < length stack
      → Stands e n ts
      → Rest stack n rs
      → Rest (set stack n e) (suc n) (ts ++ rs)
  Rest-place stack n e ts rs lt stands rest = (
    e,
    ts,
    rs,
    get_elem?-set stack n e lt,
    stands,
    Rest-set stack n n rs e (omega arith) rest,
    refl,
  )

  -- an iterator at a leaf, with the leaves `us` before it
  pub record IsAtLeaf (n : ℕ) (stack : List IteratorEntry) (us : List ℕ) : Type 0 where
    pub shallow : n ≤ 8
    pub size : length stack ≡ stack_size
    pub e : IteratorEntry
    pub here : get_elem? stack n ≡ some e
    pub leaf : is_leaf e.node ≡ true
    pub rest : Rest stack n us

  -- what a step to the first of the leaves `us` comes to
  abbrev pub Yields : Run (Bool × Iterator) → (us : List ℕ) → Type 0
  Yields run [] = (it : Iterator) × (run ≡ done (false, it))
  Yields run (t ∷ us) =
      (n : ℕ) × (stack : List IteratorEntry) × (run ≡ done (true, standing t (suc n) stack))
      × IsAtLeaf n stack us
