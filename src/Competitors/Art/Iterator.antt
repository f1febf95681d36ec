-- ===== src/Competitors/Art/Iterator.antt =====
-- `ART::Iterator` (src/competitors/art.hpp): a stack of nodes, each with the position of the child
-- that comes next.
use learned_secondary_index.Common.{
  ℕ, zero, suc, ◌+◌, ◌-◌, ltb, ◌==◌, not, ◌&&◌, ◌||◌, if◌then◌else◌, Bool, true, false, List, [],
  ◌∷◌, replicate,
}
use learned_secondary_index.Common.Run.{Run, done, out_of_bounds, out_of_fuel, ◌>>=◌}
use learned_secondary_index.Common.Arrays.{at, write}
use learned_secondary_index.Competitors.Art.Node.{
  Ptr, is_leaf, get_leaf_value, max_prefix_length, empty_marker, Node, node4, node16, node48,
  node256,
}
use learned_secondary_index.Competitors.Art.Heap.{Nodes, load}

pub record IteratorEntry : Type 0 where
  pub node : Ptr
  pub pos : ℕ

pub record Iterator : Type 0 where
  pub is_end : Bool
  pub value : ℕ
  pub depth : ℕ
  pub stack : List IteratorEntry

abbrev pub stack_size : ℕ
stack_size = max_prefix_length

-- `reset`, and the constructor
unfoldable pub reset : Bool → Iterator
reset end = record {
  is_end = end;
  value = 0;
  depth = 0;
  stack = replicate stack_size (record { node = 0; pos = 0 });
}

-- `top()`: at depth 0 the index wraps around, far behind the stack
unfoldable pub top : Iterator → Run IteratorEntry
top it = if it.depth == 0 then out_of_bounds else at it.stack (it.depth - 1)

unfoldable pub set_top : Iterator → IteratorEntry → Run Iterator
set_top it e =
    let written = (do
      stack ← write it.stack (it.depth - 1) e
      done (record it { stack = stack })) in
    if it.depth == 0 then out_of_bounds else written

unfoldable pub push : Iterator → Ptr → Run Iterator
push it p = do
  stack ← write it.stack it.depth (record { node = p; pos = 0 })
  done (record it { stack = stack; depth = it.depth + 1 })

-- `for (; pos < 256; pos++) if (used[pos] != unused) break`
unfoldable pub next_used : (rounds pos : ℕ) → List ℕ → (unused : ℕ) → Run ℕ
next_used zero pos used unused = done pos
next_used (suc rounds) pos used unused =
    let rest = next_used rounds (pos + 1) used unused in
    do x ← at used pos; if x == unused then rest else done pos

-- the `switch` of `next`: the next child, null if there is none, and the position afterwards
unfoldable pub step_child : Node → ℕ → Run (Ptr × ℕ)
unfolding next_used
step_child (node4 h key child) pos =
    let c = (do c ← at child pos; done (c, pos + 1)) in if ltb pos h.count then c else done (0, pos)
step_child (node16 h key child) pos =
    let c = (do c ← at child pos; done (c, pos + 1)) in if ltb pos h.count then c else done (0, pos)
step_child (node48 h child_index child) pos = do
  p ← next_used (256 - pos) pos child_index empty_marker
  if ltb p 256 then (do i ← at child_index p; c ← at child i; done (c, p + 1)) else done (0, p)
step_child (node256 h child) pos = do
  p ← next_used (256 - pos) pos child 0
  if ltb p 256 then (do c ← at child p; done (c, p + 1)) else done (0, p)

-- `while (depth > 0)` of `next`
unfoldable pub next_loop : (fuel : ℕ) → Nodes → Iterator → Run (Bool × Iterator)
unfolding top set_top push step_child
next_loop zero nodes it = out_of_fuel
next_loop (suc fuel) nodes it =
    let round = (do
      e ← top it
      let descend = (do
        node ← load nodes e.node
        (c, pos) ← step_child node e.pos
        it' ← set_top it (record e { pos = pos })
        let down = (do it'' ← push it' c; next_loop fuel nodes it'')
        let leave = next_loop fuel nodes (record it' { depth = it'.depth - 1 })
        if c == 0 then leave else down)
      if is_leaf e.node
          then done (true, record it { value = get_leaf_value e.node })
          else descend) in
    if it.depth == 0 then done (false, it) else round

-- the parent of a leaf, before `next` looks for another one
unfoldable pub leave_leaf : Iterator → Run Iterator
unfolding top
leave_leaf it =
    let checked = (do
      e ← top it
      done (if is_leaf e.node then record it { depth = it.depth - 1 } else it)) in
    if it.depth == 0 then done it else checked

unfoldable pub next : (fuel : ℕ) → Nodes → Iterator → Run (Bool × Iterator)
unfolding next_loop leave_leaf
next fuel nodes it = do it' ← leave_leaf it; next_loop fuel nodes it'

-- `it++`, which returns the iterator afterwards
unfoldable pub post_next : (fuel : ℕ) → Nodes → Iterator → Run Iterator
unfolding next reset
post_next fuel nodes it = do
  (found, it') ← next fuel nodes it
  done (if found then it' else reset true)

unfoldable pub deref : Iterator → ℕ
deref it = it.value

abbrev pub entry_eq : IteratorEntry → IteratorEntry → Bool
entry_eq a b = a.node == b.node && a.pos == b.pos

abbrev pub stack_eq : List IteratorEntry → List IteratorEntry → Bool
stack_eq [] [] = true
stack_eq (a ∷ as') (b ∷ bs) = entry_eq a b && stack_eq as' bs
stack_eq _ _ = false

unfoldable pub iter_eq : Iterator → Iterator → Bool
iter_eq a b =
    (a.is_end && b.is_end)
    || (not (a.is_end || b.is_end)
        && a.value == b.value
        && a.depth == b.depth
        && stack_eq a.stack b.stack)

unfoldable pub iter_ne : Iterator → Iterator → Bool
unfolding iter_eq
iter_ne a b = not (iter_eq a b)

-- the first child of a node, as `minimum_it` takes it
unfoldable pub first_child : Node → Run Ptr
unfolding next_used
first_child (node4 h key child) = at child 0
first_child (node16 h key child) = at child 0
first_child (node48 h child_index child) = do
  pos ← next_used 256 0 child_index empty_marker
  i ← at child_index pos
  at child i
first_child (node256 h child) = do pos ← next_used 256 0 child 0; at child pos

-- `while (node)` of `minimum_it`
unfoldable pub minimum_it : (fuel : ℕ) → Nodes → Ptr → Iterator → Run Iterator
unfolding top set_top push first_child
minimum_it zero nodes p it = out_of_fuel
minimum_it (suc fuel) nodes p it =
    let round = (do
      e ← top it
      it' ← set_top it (record e { pos = e.pos + 1 })
      it'' ← push it' p
      let descend = (do node ← load nodes p; c ← first_child node; minimum_it fuel nodes c it'')
      if is_leaf p then done (record it'' { value = get_leaf_value p }) else descend) in
    if p == 0 then done it else round
