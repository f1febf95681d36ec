-- ===== src/Competitors/Art/Kids.antt =====
-- The leaves below the children of a node, taken apart at a byte (src/competitors/art.hpp).
use learned_secondary_index.Common.{
  ℕ, suc, ◌≤◌, ◌<◌, ◌≡◌, ◌≢◌, refl, ap, ◌∙◌, sym, ◌⊎◌, inl, inr, List, [], ◌++◌, arith, ℕ_discrete,
}
use learned_secondary_index.Common.Run.{done}
use mathlib.Core.List.{append_assoc}
use learned_secondary_index.Competitors.Art.Node.{Ptr, Node}
use learned_secondary_index.Competitors.Art.Heap.{Nodes}
use learned_secondary_index.Competitors.Art.Search.{child_at}
use learned_secondary_index.Competitors.Art.Cursor.{pos_of, NextChild}
use learned_secondary_index.Competitors.Art.Subtree.{
  byte, Each, Each-append, Each-map, key_of, Below, leaf, inner, Kids, end, gap, kid,
}

done_injective : (a b : ℕ) → done a ≡ done b → a ≡ b
done_injective a b e = ground (arith, e)

module _ (nodes : Nodes) (dataset : List ℕ) where
  pub Below-nonempty :
      {depth : ℕ} {p : Ptr} {ts : List ℕ} → Below nodes dataset depth p ts → ts ≢ []
  Below-nonempty (leaf l d x at fits e) empty = absurd (ground (arith, e, empty))
  Below-nonempty (inner node l n at w size d prefix ne kids) empty = ne empty

  pub Kids-byte :
      {depth : ℕ} {node : Node} {b : ℕ} {ts : List ℕ}
      → Kids nodes dataset depth node b ts
      → Each (λ t. b ≤ byte (key_of nodes dataset t) depth) ts
  Kids-byte {ts = ts} (end e f) = rw f tt
  Kids-byte {depth} {node} {b} {ts} (gap lt none_there rest) =
      Each-map (λ t. suc b ≤ byte (key_of nodes dataset t) depth)
        (λ t. b ≤ byte (key_of nodes dataset t) depth) ts (λ t h. omega arith) (Kids-byte rest)
  Kids-byte {depth} {node} {b} {ts} (kid lt c ne at us vs below same rest e) = rw e (
      Each-append (λ t. b ≤ byte (key_of nodes dataset t) depth) us vs
        (Each-map (λ t. byte (key_of nodes dataset t) depth ≡ b)
          (λ t. b ≤ byte (key_of nodes dataset t) depth) us (λ t h. omega (arith, h)) same)
        (Each-map (λ t. suc b ≤ byte (key_of nodes dataset t) depth)
          (λ t. b ≤ byte (key_of nodes dataset t) depth) vs (λ t h. omega arith) (Kids-byte rest)))

  -- what stands below the child that `next` takes
  abbrev pub Taken : (depth : ℕ) → Node → (c : Ptr) → (p : ℕ) → (ts : List ℕ) → Type 0
  Taken depth node c p ts =
      (k : ℕ) × (us : List ℕ) × (vs : List ℕ) × (k < 256)
      × (p ≡ pos_of node (suc k))
      × Below nodes dataset (suc depth) c us
      × Kids nodes dataset depth node (suc k) vs
      × (ts ≡ us ++ vs)

  pub Kids-next :
      {depth : ℕ} {node : Node} {b : ℕ} {ts : List ℕ} (c : Ptr) (p : ℕ)
      → Kids nodes dataset depth node b ts
      → NextChild node b c p
      → ((c ≡ 0) × (ts ≡ [])) ⊎ ((c ≢ 0) × Taken depth node c p ts)
  Kids-next c p (end e f) (inl (null, none_there)) = inl (null, f)
  Kids-next c p (end e f) (inr (there, (k, le, inside, at, behind, before))) =
      absurd (omega (arith, e))
  Kids-next c p (gap lt free rest) (inl (null, none_there)) =
      Kids-next c p rest (inl (null, λ k le. none_there k (omega arith)))
  Kids-next {depth} {node} {b} c p (gap lt free rest)
        (inr (there, (k, le, inside, at, behind, before))) =
      elim (ℕ_discrete k b) [
        | yes e ↦
            let free' : child_at node k ≡ done 0 = rw e free in
            absurd (there (done_injective c 0 (sym at ∙ free')))
        | no other ↦ Kids-next c p rest (
            inr (
              there,
              (k, omega (arith, other), inside, at, behind, λ j q r. before j (omega arith) r),
            ))
      ]
  Kids-next {depth} {node} {b} c p (kid lt c' ne at' us vs below same rest e)
        (inl (null, none_there)) =
      absurd (ne (done_injective c' 0 (sym at' ∙ none_there b (omega arith) lt)))
  Kids-next {depth} {node} {b} c p (kid lt c' ne at' us vs below same rest e)
        (inr (there, (k, le, inside, at, behind, before))) =
      elim (ℕ_discrete k b) [
        | yes here ↦
            let at'' : child_at node k ≡ done c' = rw here at' in
            let same_child : c' ≡ c = done_injective c' c (sym at'' ∙ at) in
            let next_pos : p ≡ pos_of node (suc b) = behind ∙ ap (pos_of node) (omega arith) in
            inr (there, (b, us, vs, lt, next_pos, rw same_child at below, rest, e))
        | no other ↦
            absurd
              (ne (done_injective c' 0 (sym at' ∙ before b (omega arith) (omega (arith, other)))))
      ]

  -- the children for the bytes below `b`, and those from `b` on
  abbrev pub SplitAt : (depth : ℕ) → Node → (b : ℕ) → (ts : List ℕ) → Type 0
  SplitAt depth node b ts =
      (ls : List ℕ) × (rs : List ℕ) × (ts ≡ ls ++ rs)
      × Each (λ t. byte (key_of nodes dataset t) depth < b) ls
      × Kids nodes dataset depth node b rs

  pub Kids-split :
      {depth : ℕ} {node : Node} {a : ℕ} {ts : List ℕ} (b : ℕ)
      → Kids nodes dataset depth node a ts
      → a ≤ b
      → b ≤ 256
      → SplitAt depth node b ts
  Kids-split {depth} {node} {a} {ts} b (end e f) le fits =
      let whole : a ≡ b = omega arith in ([], ts, refl, tt, end (omega arith) f)
  Kids-split {depth} {node} {a} {ts} b (gap lt free rest) le fits = elim (ℕ_discrete a b) [
    | yes e ↦ ([], ts, refl, tt, gap (omega (arith, e)) (rw (sym e) free) (rw e at rest))
    | no other ↦ Kids-split b rest (omega (arith, other)) fits
  ]
  Kids-split {depth} {node} {a} {ts} b (kid lt c ne at us vs below same rest e) le fits =
      elim (ℕ_discrete a b) [
        | yes here ↦ (
          [],
          ts,
          refl,
          tt,
          kid (omega (arith, here)) c ne (rw (sym here) at) us vs below (rw here at same)
              (rw here at rest) e,
        )
        | no other ↦
            let (ls, rs, whole, less, kids) = Kids-split b rest (omega (arith, other)) fits in
            (
              us ++ ls,
              rs,
              e ∙ ap (λ vs. us ++ vs) whole ∙ sym (append_assoc us ls rs),
              Each-append (λ t. byte (key_of nodes dataset t) depth < b) us ls
                  (Each-map (λ t. byte (key_of nodes dataset t) depth ≡ a)
                    (λ t. byte (key_of nodes dataset t) depth < b) us
                    (λ t h. omega (arith, h, other)) same)
                  less,
              kids,
            )
      ]

  -- the child for a byte
  pub Kids-at :
      {depth : ℕ} {node : Node} {b : ℕ} {ts : List ℕ} (c : Ptr)
      → Kids nodes dataset depth node b ts
      → b < 256
      → child_at node b ≡ done c
      → ((c ≡ 0) × Kids nodes dataset depth node (suc b) ts)
        ⊎ ((c ≢ 0)
            × ((us : List ℕ) × (vs : List ℕ) × Below nodes dataset (suc depth) c us
                × Each (λ t. byte (key_of nodes dataset t) depth ≡ b) us
                × Kids nodes dataset depth node (suc b) vs
                × (ts ≡ us ++ vs)))
  Kids-at c (end e f) lt at = absurd (omega (arith, e))
  Kids-at c (gap lt' free rest) lt at = inl (done_injective c 0 (sym at ∙ free), rest)
  Kids-at c (kid lt' c' ne at' us vs below same rest e) lt at =
      let same_child : c' ≡ c = done_injective c' c (sym at' ∙ at) in
      inr ((λ null. ne (same_child ∙ null)), (us, vs, rw same_child at below, same, rest, e))
