-- ===== src/Competitors/Art/Walk.antt =====
-- `ART::Iterator::next` (src/competitors/art.hpp) goes through the leaves that an iterator has before
-- it, in their order.
use learned_secondary_index.Common.{
  ℕ, zero, suc, ◌+◌, ◌≤◌, ◌<◌, ◌≡◌, refl, if◌then◌else◌, ◌∙◌, sym, inl, inr, some, List, [], ◌∷◌,
  ◌++◌, length, get_elem?, arith,
}
use mathlib.Core.List.{append_assoc}
use learned_secondary_index.Common.Run.{Run, done, out_of_fuel, ◌>>=◌}
use learned_secondary_index.Competitors.Art.Node.{Ptr, header}
use learned_secondary_index.Competitors.Art.Heap.{Nodes}
use learned_secondary_index.Competitors.Art.Iterator.{
  IteratorEntry, Iterator, stack_size, next_loop, leave_leaf, next, post_next, deref, reset,
}
use learned_secondary_index.Competitors.Art.Cursor.{pos_of_zero}
use learned_secondary_index.Competitors.Art.Subtree.{Below, leaf, inner}
use learned_secondary_index.Competitors.Art.Position.{standing, Stands, Rest, IsAtLeaf, Yields}
use learned_secondary_index.Competitors.Art.Steps.{
  suc-nonzero, last_index, next_loop-end, next_loop-leaf, turn,
}

module _ (nodes : Nodes) (dataset : List ℕ) where
  -- down from a pointer that was just pushed
  pub descend :
      (fuel value n depth : ℕ) (p : Ptr) (stack : List IteratorEntry) (ts rs : List ℕ)
      → 9 ≤ fuel + depth
      → get_elem? stack n ≡ some (record { node = p; pos = 0 })
      → length stack ≡ stack_size
      → Below nodes dataset depth p ts
      → Rest nodes dataset stack n rs
      → n ≤ depth
      → Yields nodes dataset (next_loop fuel nodes (standing value (suc n) stack)) (ts ++ rs)
  descend zero value n depth p stack ts rs enough here size (leaf l d x at fits e) rest le =
      absurd (omega arith)
  descend zero value n depth p stack ts rs enough here size
        (inner node l some_node at w whole_prefix d prefix ne kids) rest le =
      absurd (omega arith)
  descend (suc fuel) value n depth p stack ts rs enough here size (leaf l d x at fits e) rest le =
      rw e (
        n,
        stack,
        next_loop-leaf nodes fuel value stack n (record { node = p; pos = 0 }) here l,
        record {
          shallow = omega arith;
          size = size;
          e = record { node = p; pos = 0 };
          here = here;
          leaf = l;
          rest = rest;
        },
      )
  descend (suc fuel) value n depth p stack ts rs enough here size
        (inner node l some_node at w whole_prefix d prefix ne kids) rest le =
      let stands : Stands nodes dataset (record { node = p; pos = 0 }) n ts = record {
        node = node;
        depth = depth + (header node).prefix_length;
        b = 0;
        inner = l;
        there = at;
        valid = w;
        at_byte = sym (pos_of_zero node);
        bounded = omega arith;
        shallow = omega arith;
        within = d;
        kids = kids;
      } in
      elim (turn nodes dataset fuel value n stack (record { node = p; pos = 0 }) ts rs here size
        stands rest) [
          | inl (none_left, left) ↦ absurd (ne none_left)
          | inr (depth', c, us, vs, stack', run, size', here', below, deeper, rest', whole) ↦
              rw (run, whole, append_assoc us vs rs)
                (descend fuel value (suc n) depth' c stack' us (vs ++ rs) (omega arith) here'
                  (size' ∙ size) below rest' (omega arith))
        ]

  -- from the nodes on a stack
  pub climb :
      (fuel value n : ℕ) (stack : List IteratorEntry) (us : List ℕ)
      → n + 10 ≤ fuel
      → length stack ≡ stack_size
      → Rest nodes dataset stack n us
      → Yields nodes dataset (next_loop fuel nodes (standing value n stack)) us
  climb zero value n stack us enough size rest = absurd (omega arith)
  climb (suc fuel) value zero stack us enough size rest =
      rw rest (standing value 0 stack, next_loop-end nodes fuel value stack)
  climb (suc fuel) value (suc n) stack us enough size (e, ts, rs, here, stands, rest, whole) =
      elim (turn nodes dataset fuel value n stack e ts rs here size stands rest) [
        | inl (none_left, (stack', run, size', rest')) ↦
            rw (whole, none_left, run)
              (climb fuel value n stack' rs (omega arith) (size' ∙ size) rest')
        | inr (depth', c, vs, ws, stack', run, size', here', below, deeper, rest', parts) ↦
            rw (whole, run, parts, append_assoc vs ws rs)
              (descend fuel value (suc n) depth' c stack' vs (ws ++ rs) (omega arith) here'
                (size' ∙ size) below rest' (omega (arith, stands.shallow)))
      ]

  pub next-leaf :
      (fuel value n : ℕ) (stack : List IteratorEntry) (us : List ℕ)
      → n + 10 ≤ fuel
      → IsAtLeaf nodes dataset n stack us
      → Yields nodes dataset (next fuel nodes (standing value (suc n) stack)) us
  unfolding next leave_leaf
  next-leaf fuel value n stack us enough a =
      let run : next fuel nodes (standing value (suc n) stack)
          ≡ next_loop fuel nodes (standing value n stack) =
        rw (suc-nonzero n, last_index n, a.here, a.leaf) refl in
      rw run (climb fuel value n stack us enough a.size a.rest)

  -- from an iterator whose last entry, if it has one, is a node
  pub next-stack :
      (fuel value n : ℕ) (stack : List IteratorEntry) (us : List ℕ)
      → n + 10 ≤ fuel
      → length stack ≡ stack_size
      → Rest nodes dataset stack n us
      → Yields nodes dataset (next fuel nodes (standing value n stack)) us
  unfolding next leave_leaf
  next-stack fuel value zero stack us enough size rest =
      climb fuel value zero stack us enough size rest
  next-stack fuel value (suc n) stack us enough size rest =
      let (e, ts, rs, here, stands, old, whole) = rest in
      rw (suc-nonzero n, last_index n, here, stands.inner)
        (climb fuel value (suc n) stack us enough size rest)

-- `while (it != end) { values.push_back(*it); it++; }`
abbrev pub walk : (steps : ℕ) → (fuel : ℕ) → Nodes → Iterator → Run (List ℕ)
walk zero fuel nodes it = out_of_fuel
walk (suc steps) fuel nodes it =
    let step = (do
      it' ← post_next fuel nodes it
      values ← walk steps fuel nodes it'
      done (deref it ∷ values)) in
    if it.is_end then done [] else step

pub walk-leaf :
    (nodes : Nodes) (dataset : List ℕ) (fuel steps value n : ℕ) (stack : List IteratorEntry)
    (us : List ℕ)
    → 18 ≤ fuel
    → suc (length us) < steps
    → IsAtLeaf nodes dataset n stack us
    → walk steps fuel nodes (standing value (suc n) stack) ≡ done (value ∷ us)
unfolding post_next deref reset
walk-leaf nodes dataset fuel zero value n stack us enough lt a = absurd (omega arith)
walk-leaf nodes dataset fuel (suc zero) value n stack us enough lt a = absurd (omega arith)
walk-leaf nodes dataset fuel (suc (suc steps)) value n stack [] enough lt a =
    let (it, run) = next-leaf nodes dataset fuel value n stack [] (omega (arith, a.shallow)) a in
    rw run refl
walk-leaf nodes dataset fuel (suc (suc steps)) value n stack (t ∷ us) enough lt a =
    let (m, stack', run, a') =
      next-leaf nodes dataset fuel value n stack (t ∷ us) (omega (arith, a.shallow)) a in
    rw run
      (rw (walk-leaf nodes dataset fuel (suc steps) t m stack' us enough (omega arith) a') refl)
