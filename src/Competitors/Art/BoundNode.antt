-- ===== src/Competitors/Art/BoundNode.antt =====
-- The step of `bound` (src/competitors/art.hpp) at a node: its compressed path differs from the key,
-- or its child for the byte behind it is the next one, or there is none.
use learned_secondary_index.Common.{
  ℕ, zero, suc, ◌+◌, ◌^◌, ◌≤◌, ◌<◌, ◌≡◌, ◌≢◌, refl, ap, ◌∙◌, sym, inl, inr, true, false, some, List,
  [], ◌∷◌, ◌++◌, length, get_or, get_elem?, arith, dec_lt,
}
use mathlib.Core.List.{append_assoc}
use learned_secondary_index.Common.Run.{done}
use learned_secondary_index.Common.Arrays.{set}
use learned_secondary_index.Common.ArrayLaws.{length-set, get_elem?-set, at-get_or}
use learned_secondary_index.Competitors.Art.Node.{Ptr, is_leaf, max_prefix_length, Node, header}
use learned_secondary_index.Competitors.Art.Heap.{Nodes, load, swap_bytes}
use learned_secondary_index.Competitors.Art.Iterator.{IteratorEntry, stack_size}
use learned_secondary_index.Competitors.Art.Prefix.{prefix_mismatch_within}
use learned_secondary_index.Competitors.Art.Search.{bound_loop}
use learned_secondary_index.Competitors.Art.Contract.{IsNode}
use learned_secondary_index.Competitors.Art.Cursor.{pos_of, pos_of_zero, bound_child_lem}
use learned_secondary_index.Competitors.Art.Subtree.{
  byte, Each, Each-split, Each-map, Each-both, HasPrefix, Kids,
}
use learned_secondary_index.Competitors.Art.Kids.{Kids-byte, Kids-split, Kids-at}
use learned_secondary_index.Competitors.Art.Position.{standing, Rest, Rest-set, Rest-place, Yields}
use learned_secondary_index.Competitors.Art.Walk.{next-stack}
use learned_secondary_index.Competitors.Art.Bytes.{AllBytes, swap_bytes-AllBytes}
use learned_secondary_index.Competitors.Art.KeyOrder.{Agree-suc, at-key}
use learned_secondary_index.Competitors.Art.Selection.{
  from_key, from_key-append, Near, from_key-less, from_key-more,
}
use learned_secondary_index.Competitors.Art.Bound.{key}
use learned_secondary_index.Competitors.Art.BoundSteps.{
  bound_prefix-less, bound_prefix-more, bound_loop-prefix, bound_loop-stay, bound_loop-go,
}
use learned_secondary_index.Competitors.Art.BoundLoop.{Bounded, Near-path}

AllBytes-get_or : (xs : List ℕ) (i : ℕ) → AllBytes xs → get_or xs i 0 < 256
AllBytes-get_or [] i h = omega arith
AllBytes-get_or (x ∷ xs) zero h = h.0
AllBytes-get_or (x ∷ xs) (suc i) h = AllBytes-get_or xs i h.1

pub byte_lt : (k i : ℕ) → byte k i < 256
byte_lt k i = AllBytes-get_or (swap_bytes k) i (swap_bytes-AllBytes k)

module _ (fuel : ℕ) (nodes : Nodes) (dataset behind : List ℕ) (k : ℕ) (fits : k < 2 ^ 64)
    (enough : 18 ≤ fuel) where
  module _ (rounds value n d : ℕ) (p : Ptr) (stack : List IteratorEntry) (ts rs : List ℕ)
      (size : length stack ≡ stack_size) (le : n ≤ d) (fits_depth : d ≤ 8) (old : IteratorEntry)
      (here : get_elem? stack n ≡ some old) (near : Each (Near dataset k fits d) ts)
      (rest : Rest nodes dataset stack n rs) where
    -- at a node that loads
    module _ (node : Node) (there : load nodes p ≡ done node) (not_leaf : is_leaf p ≡ false)
        (w : IsNode node) (within : d + (header node).prefix_length < 8)
        (path : Each
          (HasPrefix nodes dataset d (header node).prefix_length (header node).prefix)
          ts)
        (kids : Kids nodes dataset (d + (header node).prefix_length) node 0 ts) where
      abbrev pub Found : Type 0
      Found =
          Yields nodes dataset
            (bound_loop fuel nodes dataset (key fuel nodes dataset behind k fits) 8 (suc rounds)
              true p d (standing value n stack))
            (from_key dataset k ts ++ rs)

      abbrev stack' : List IteratorEntry
      stack' = set stack n (record { node = p; pos = old.pos })

      size' : length stack' ≡ stack_size
      size' = length-set stack n (record { node = p; pos = old.pos }) ∙ size

      rest' : Rest nodes dataset stack' n rs
      rest' =
          Rest-set nodes dataset stack n n rs (record { node = p; pos = old.pos }) (omega arith)
            rest

      abbrev turned : (pos : ℕ) → List IteratorEntry
      turned pos = set stack' n (record { node = p; pos = pos })

      size-turned : (pos : ℕ) → length (turned pos) ≡ stack_size
      size-turned pos = length-set stack' n (record { node = p; pos = pos }) ∙ size'

      Rest-turned :
          (b pos : ℕ) (us : List ℕ)
          → pos ≡ pos_of node b
          → b ≤ 256
          → Kids nodes dataset (d + (header node).prefix_length) node b us
          → Rest nodes dataset (turned pos) (suc n) (us ++ rs)
      Rest-turned b pos us at_b small children =
          Rest-place nodes dataset stack' n (record { node = p; pos = pos }) us rs
            (omega (arith, size'))
            (record {
              node = node;
              depth = d + (header node).prefix_length;
              b = b;
              inner = not_leaf;
              there = there;
              valid = w;
              at_byte = at_b;
              bounded = small;
              shallow = omega arith;
              within = within;
              kids = children;
            })
            rest'

      abbrev k_bytes : List ℕ
      k_bytes = key fuel nodes dataset behind k fits

      pub at_prefix :
          (i : ℕ)
          → prefix_mismatch_within fuel nodes dataset p k_bytes d 8 ≡ done i
          → i < (header node).prefix_length
          → length (header node).prefix ≡ max_prefix_length
          → byte k (d + i) ≢ get_or (header node).prefix i 0
          → ((j : ℕ) → j < i → byte k (d + j) ≡ get_or (header node).prefix j 0)
          → Found
      at_prefix i run less length_prefix differ before =
          let lt : n < length stack = omega arith in
          let lt' : n < length stack' = omega (arith, size') in
          let e : IteratorEntry = record { node = p; pos = old.pos } in
          let read = at-get_or (header node).prefix i 0 (omega arith) in
          let read' = at-key k (d + i) behind (omega arith) in
          let stop =
            bound_loop-prefix fuel nodes dataset k_bytes value n stack lt rounds p d old here node
              not_leaf there i run less in
          let near' =
            Near-path fuel nodes dataset behind k fits enough d i node ts (omega arith) before path
              near in
          let here' = get_elem?-set stack n e lt in
          let own : Each (λ t. byte (get_or dataset t 0) (d + i) ≡ get_or (header node).prefix i 0)
              ts =
            Each-map (HasPrefix nodes dataset d (header node).prefix_length (header node).prefix)
              (λ t. byte (get_or dataset t 0) (d + i) ≡ get_or (header node).prefix i 0) ts
              (λ t h. h i less) path in
          elim (dec_lt (get_or (header node).prefix i 0) (byte k (d + i))) [
            | yes smaller ↦
                let all_less =
                  Each-map
                    (λ t. byte (get_or dataset t 0) (d + i) ≡ get_or (header node).prefix i 0)
                    (λ t. byte (get_or dataset t 0) (d + i) < byte k (d + i)) ts
                    (λ t h. omega (arith, h, smaller)) own in
                let none = from_key-less dataset k fits (d + i) ts (omega arith) near' all_less in
                let leave =
                  bound_prefix-less fuel nodes dataset k_bytes value n stack' lt' e here'
                    (header node) d i (get_or (header node).prefix i 0) (byte k (d + i)) read read'
                    smaller in
                rw (none, stop, leave)
                  (next-stack nodes dataset fuel value n stack' rs (omega arith) size' rest')
            | no larger ↦
                let all_more =
                  Each-map
                    (λ t. byte (get_or dataset t 0) (d + i) ≡ get_or (header node).prefix i 0)
                    (λ t. byte k (d + i) < byte (get_or dataset t 0) (d + i)) ts
                    (λ t h. omega (arith, h, larger, differ)) own in
                let all = from_key-more dataset k fits (d + i) ts (omega arith) near' all_more in
                let enter =
                  bound_prefix-more fuel nodes dataset k_bytes value n stack' lt' e here'
                    (header node) d i (get_or (header node).prefix i 0) (byte k (d + i)) read read'
                    (omega (arith, larger, differ)) in
                rw (all, stop, enter)
                  (next-stack nodes dataset fuel value (suc n) (turned 0) (ts ++ rs) (omega arith)
                    (size-turned 0)
                    (Rest-turned 0 0 ts (sym (pos_of_zero node)) (omega arith) kids))
          ]

      pub at_child :
          prefix_mismatch_within fuel nodes dataset p k_bytes d 8 ≡ done (header node).prefix_length
          → ((i : ℕ)
              → i < (header node).prefix_length
              → byte k (d + i) ≡ get_or (header node).prefix i 0)
          → 9 ≤ suc rounds + d
          → Bounded fuel nodes dataset behind k fits enough rounds
          → Found
      at_child run same enough_rounds deeper =
          let d' = d + (header node).prefix_length in
          let b = byte k d' in
          let lt : n < length stack = omega arith in
          let (c, child, at_b, behind_b) = bound_child_lem node b w (byte_lt k d') in
          let near' =
            Near-path fuel nodes dataset behind k fits enough d (header node).prefix_length node ts
              (omega arith) same path near in
          let (ls, ms, whole, less, kids') =
            Kids-split nodes dataset b kids (omega arith) (omega (arith, byte_lt k d')) in
          let near_parts = Each-split (Near dataset k fits d') ls ms (rw whole at near') in
          let none = from_key-less dataset k fits d' ls within near_parts.0 less in
          let read = at-key k d' behind within in
          elim (Kids-at nodes dataset c kids' (byte_lt k d') at_b) [
            | inl (null, later) ↦
                let all_more =
                  Each-map (λ t. suc b ≤ byte (get_or dataset t 0) d')
                    (λ t. byte k d' < byte (get_or dataset t 0) d') ms (λ t h. omega (arith, h))
                    (Kids-byte nodes dataset later) in
                let all = from_key-more dataset k fits d' ms within near_parts.1 all_more in
                let stay =
                  bound_loop-stay fuel nodes dataset k_bytes value n stack lt rounds p d old here
                    node not_leaf there c (pos_of node b) b run within read child null in
                rw (whole, from_key-append dataset k ls ms, none, all, stay)
                  (next-stack nodes dataset fuel value (suc n) (turned (pos_of node b)) (ms ++ rs)
                    (omega arith) (size-turned (pos_of node b))
                    (Rest-turned b (pos_of node b) ms refl (omega (arith, byte_lt k d')) kids'))
            | inr (some_child, (us, vs, below, own, later, parts)) ↦
                let near_kids =
                  Each-split (Near dataset k fits d') us vs (rw parts at near_parts.1) in
                let all_more =
                  Each-map (λ t. suc b ≤ byte (get_or dataset t 0) d')
                    (λ t. byte k d' < byte (get_or dataset t 0) d') vs (λ t h. omega (arith, h))
                    (Kids-byte nodes dataset later) in
                let all = from_key-more dataset k fits d' vs within near_kids.1 all_more in
                let near_child =
                  Each-map (λ t. Near dataset k fits d' t × (byte (get_or dataset t 0) d' ≡ b))
                    (Near dataset k fits (suc d')) us
                    (λ t ((small, agree), q). (small, Agree-suc d' (get_or dataset t 0) k agree q))
                    (Each-both (Near dataset k fits d') (λ t. byte (get_or dataset t 0) d' ≡ b) us
                      near_kids.0 own) in
                let go =
                  bound_loop-go fuel nodes dataset k_bytes value n stack lt rounds p d old here node
                    not_leaf there c (pos_of node b) b run within read child some_child in
                let one : d' + 1 ≡ suc d' = omega arith in
                let behind_child : pos_of node b + 1 ≡ pos_of node (suc b) =
                  behind_b some_child ∙ ap (pos_of node) (omega arith) in
                rw
                  (
                    whole,
                    from_key-append dataset k ls ms,
                    none,
                    parts,
                    from_key-append dataset k us vs,
                    all,
                    go,
                    one,
                    append_assoc (from_key dataset k us) vs rs,
                  )
                  (deeper value (suc n) (suc d') c (turned (pos_of node b + 1)) us (vs ++ rs)
                    (omega arith) (size-turned (pos_of node b + 1)) (omega arith) below near_child
                    (Rest-turned (suc b) (pos_of node b + 1) vs behind_child
                      (omega (arith, byte_lt k d')) later))
          ]
