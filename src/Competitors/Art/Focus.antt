-- ===== src/Competitors/Art/Focus.antt =====
-- The child of a node for one byte, and the node with another child there
-- (src/competitors/art.hpp).
use learned_secondary_index.Common.{
  ℕ, suc, ◌≤◌, ◌<◌, ◌≡◌, ◌≢◌, refl, ap, ◌∙◌, sym, List, [], ◌++◌, ◌⊎◌, inl, inr, arith, ℕ_discrete,
}
use mathlib.Core.List.{append_assoc}
use learned_secondary_index.Common.Run.{done}
use learned_secondary_index.Competitors.Art.Node.{Ptr, Node}
use learned_secondary_index.Competitors.Art.Heap.{Nodes, load}
use learned_secondary_index.Competitors.Art.Search.{child_at}
use learned_secondary_index.Competitors.Art.Kids.{Kids-byte}
use learned_secondary_index.Competitors.Art.Subtree.{
  byte, Each, Each-append, Each-split, Each-map, key_of,
}
use learned_secondary_index.Competitors.Art.Footprint.{
  At, Slots, last, free, used, Keeps, At-Keeps, Slots-Kids,
}

module _ (dataset : List ℕ) where
  -- the same children, in another heap
  Slots-view :
      {nodes : Nodes} {depth : ℕ} {node : Node} {a : ℕ} {ts : List ℕ} {fs : List Ptr}
      (nodes' : Nodes) (node' : Node)
      → Slots dataset nodes depth node a ts fs
      → Keeps dataset nodes nodes' fs
      → ((k : ℕ) → a ≤ k → k < 256 → child_at node' k ≡ child_at node k)
      → Slots dataset nodes' depth node' a ts fs
  Slots-view nodes' node' (last e f g) keeps same = last e f g
  Slots-view {a = a} nodes' node' (free lt at rest) keeps same =
      free lt (same a (omega arith) lt ∙ at)
        (Slots-view nodes' node' rest keeps (λ k le. same k (omega arith)))
  Slots-view {nodes} {a = a} nodes' node' (used lt c ne at us vs gs hs below own rest e f) keeps
        same =
      let (first, others) =
        Each-split (λ q. (node : Node) → load nodes q ≡ done node → load nodes' q ≡ done node) gs hs
          (rw f at keeps) in
      used lt c ne (same a (omega arith) lt ∙ at) us vs gs hs (At-Keeps dataset nodes' below first)
        own (Slots-view nodes' node' rest others (λ k le. same k (omega arith))) e f

  -- what is there for the byte
  abbrev pub Held : Nodes → (depth : ℕ) → Node → (b : ℕ) → (us : List ℕ) → (gs : List Ptr) → Type 0
  Held nodes depth node b us gs =
      ((child_at node b ≡ done 0) × (us ≡ []) × (gs ≡ []))
      ⊎ ((c : Ptr) × (c ≢ 0)
          × (child_at node b ≡ done c)
          × At dataset nodes (suc depth) c us gs
          × Each (λ t. byte (key_of nodes dataset t) depth ≡ b) us)

  -- the children once more, with another one for the byte
  abbrev pub Rebuilds :
      Nodes → (depth : ℕ) → Node → (a b : ℕ) → (ls rs : List ℕ) → (fl fr : List Ptr) → Type 0
  Rebuilds nodes depth node a b ls rs fl fr =
      (nodes' : Nodes) (node' : Node) (c : Ptr) (us : List ℕ) (gs : List Ptr)
      → Keeps dataset nodes nodes' fl
      → Keeps dataset nodes nodes' fr
      → ((k : ℕ) → k < 256 → k ≢ b → child_at node' k ≡ child_at node k)
      → child_at node' b ≡ done c
      → c ≢ 0
      → At dataset nodes' (suc depth) c us gs
      → Each (λ t. byte (key_of nodes dataset t) depth ≡ b) us
      → Slots dataset nodes' depth node' a (ls ++ (us ++ rs)) (fl ++ (gs ++ fr))

  abbrev pub Focus :
      Nodes → (depth : ℕ) → Node → (a b : ℕ) → (ts : List ℕ) → (fs : List Ptr) → Type 0
  Focus nodes depth node a b ts fs =
      (ls : List ℕ) × (us : List ℕ) × (rs : List ℕ) × (fl : List Ptr) × (gs : List Ptr) × (fr : List
        Ptr)
      × (ts ≡ ls ++ (us ++ rs))
      × (fs ≡ fl ++ (gs ++ fr))
      × Each (λ t. byte (key_of nodes dataset t) depth < b) ls
      × Each (λ t. suc b ≤ byte (key_of nodes dataset t) depth) rs
      × Held nodes depth node b us gs
      × Rebuilds nodes depth node a b ls rs fl fr

  pub focus :
      {nodes : Nodes} {depth : ℕ} {node : Node} {a : ℕ} {ts : List ℕ} {fs : List Ptr} (b : ℕ)
      → b < 256
      → a ≤ b
      → Slots dataset nodes depth node a ts fs
      → Focus nodes depth node a b ts fs
  focus b lt le (last e f g) = absurd (omega (arith, e))
  focus {nodes} {depth} {node} {a} {ts} {fs} b lt le (free lt' at rest) = elim (ℕ_discrete a b) [
    | yes e ↦
        let at' : child_at node b ≡ done 0 = rw (sym e) at in
        let rest' : Slots dataset nodes depth node (suc b) ts fs = rw e at rest in
        (
          [],
          [],
          ts,
          [],
          [],
          fs,
          refl,
          refl,
          tt,
          Kids-byte nodes dataset (Slots-Kids dataset rest'),
          inl (at', refl, refl),
          λ nodes' node' c us gs keeps keeps' same here ne below own.
              used (omega arith) c ne (rw e here) us ts gs fs below (rw e own)
                (rw e (Slots-view nodes' node' rest' keeps' (λ k le lt. same k lt (omega arith))))
                refl refl,
        )
    | no other ↦
        let (ls, us, rs, fl, gs, fr, e, f, less, more, held, rebuild) =
          focus b lt (omega (arith, other)) rest in
        (
          ls,
          us,
          rs,
          fl,
          gs,
          fr,
          e,
          f,
          less,
          more,
          held,
          λ nodes' node' c us' gs' keeps keeps' same here ne below own.
              free lt' (same a lt' other ∙ at)
                (rebuild nodes' node' c us' gs' keeps keeps' same here ne below own),
        )
  ]
  focus {nodes} {depth} {node} {a} {ts} {fs} b lt le
        (used lt' c0 ne0 at us0 vs0 gs0 hs0 below0 own0 rest e0 f0) =
      elim (ℕ_discrete a b) [
        | yes e ↦
            let at' : child_at node b ≡ done c0 = rw (sym e) at in
            let rest' : Slots dataset nodes depth node (suc b) vs0 hs0 = rw e at rest in
            (
              [],
              us0,
              vs0,
              [],
              gs0,
              hs0,
              e0,
              f0,
              tt,
              Kids-byte nodes dataset (Slots-Kids dataset rest'),
              inr (c0, ne0, at', below0, rw e at own0),
              λ nodes' node' c us gs keeps keeps' same here ne below own.
                  used (omega arith) c ne (rw e here) us vs0 gs hs0 below (rw e own)
                    (rw e
                      (Slots-view nodes' node' rest' keeps' (λ k le lt. same k lt (omega arith))))
                    refl refl,
            )
        | no other ↦
            let (ls, us, rs, fl, gs, fr, e, f, less, more, held, rebuild) =
              focus b lt (omega (arith, other)) rest in
            (
              us0 ++ ls,
              us,
              rs,
              gs0 ++ fl,
              gs,
              fr,
              e0 ∙ ap (λ z. us0 ++ z) e ∙ sym (append_assoc us0 ls (us ++ rs)),
              f0 ∙ ap (λ z. gs0 ++ z) f ∙ sym (append_assoc gs0 fl (gs ++ fr)),
              Each-append (λ t. byte (key_of nodes dataset t) depth < b) us0 ls
                  (Each-map (λ t. byte (key_of nodes dataset t) depth ≡ a)
                    (λ t. byte (key_of nodes dataset t) depth < b) us0
                    (λ t h. omega (arith, h, other)) own0)
                  less,
              more,
              held,
              λ nodes' node' c us' gs' keeps keeps' same here ne below own.
                  let (first, others) =
                    Each-split
                      (λ q. (node : Node) → load nodes q ≡ done node → load nodes' q ≡ done node)
                      gs0 fl keeps in
                  used lt' c0 ne0 (same a lt' other ∙ at) us0 (ls ++ (us' ++ rs)) gs0
                    (fl ++ (gs' ++ fr)) (At-Keeps dataset nodes' below0 first) own0
                    (rebuild nodes' node' c us' gs' others keeps' same here ne below own)
                    (append_assoc us0 ls (us' ++ rs)) (append_assoc gs0 fl (gs' ++ fr)),
            )
      ]
