-- ===== src/Competitors/Art/Add.antt =====
-- A tree below a new child of a node (src/competitors/art.hpp).
use learned_secondary_index.Common.{
  ℕ, zero, suc, ◌+◌, ◌≤◌, ◌<◌, ◌≡◌, ◌≢◌, refl, ◌∙◌, sym, ◌==◌, true, false, inl, inr, List, [],
  ◌++◌, length, arith,
}
use learned_secondary_index.Common.Run.{done}
use learned_secondary_index.Competitors.Art.Node.{Ptr, Node, header, max_prefix_length}
use learned_secondary_index.Competitors.Art.Heap.{Nodes, load}
use learned_secondary_index.Competitors.Art.Children.{insert_child}
use learned_secondary_index.Competitors.Art.Search.{child_at}
use learned_secondary_index.Competitors.Art.Contract.{IsNode}
use learned_secondary_index.Competitors.Art.Growth.{insert_child-child_at}
use learned_secondary_index.Competitors.Art.Subtree.{byte, Each, Each-split, key_of}
use learned_secondary_index.Competitors.Art.Footprint.{At, Slots, last, free, Keeps}
use learned_secondary_index.Competitors.Art.Focus.{focus}
use learned_secondary_index.Competitors.Art.SamePrefix.{
  SamePrefix, done_inj, insert_child-SamePrefix,
}

module _ (dataset : List ℕ) where
  -- a node without children
  pub Slots-none :
      (nodes : Nodes) (depth : ℕ) (node : Node) (rounds a : ℕ)
      → a + rounds ≡ 256
      → ((k : ℕ) → k < 256 → child_at node k ≡ done 0)
      → Slots dataset nodes depth node a [] []
  Slots-none nodes depth node zero a whole none = last (omega arith) refl refl
  Slots-none nodes depth node (suc rounds) a whole none =
      free (omega arith) (none a (omega arith))
        (Slots-none nodes depth node rounds (suc a) (omega arith) none)

  -- what a node becomes with a child for the byte `b`
  abbrev pub Adds :
      (nodes nodes' : Nodes) (depth : ℕ) (node : Node) (b : ℕ) (c : Ptr) (ts us : List ℕ)
      (fs gs : List Ptr)
      → Type 0
  Adds nodes nodes' depth node b c ts us fs gs =
      (node' : Node) × (insert_child node b c ≡ done node')
      × IsNode node'
      × SamePrefix (header node) (header node')
      × ((k : ℕ) → k < 256 → k ≢ b → child_at node' k ≡ child_at node k)
      × ((ls : List ℕ) × (rs : List ℕ) × (fl : List Ptr) × (fr : List Ptr) × (ts ≡ ls ++ rs)
          × (fs ≡ fl ++ fr)
          × Each (λ t. byte (key_of nodes dataset t) depth < b) ls
          × Each (λ t. suc b ≤ byte (key_of nodes dataset t) depth) rs
          × Slots dataset nodes' depth node' 0 (ls ++ (us ++ rs)) (fl ++ (gs ++ fr)))

  pub insert_child-Adds :
      (nodes nodes' : Nodes) (depth : ℕ) (node : Node) (b : ℕ) (c : Ptr) (ts us : List ℕ)
      (fs gs : List Ptr)
      → IsNode node
      → length (header node).prefix ≡ max_prefix_length
      → b < 256
      → c ≢ 0
      → child_at node b ≡ done 0
      → Slots dataset nodes depth node 0 ts fs
      → Keeps dataset nodes nodes' fs
      → At dataset nodes' (suc depth) c us gs
      → Each (λ t. byte (key_of nodes dataset t) depth ≡ b) us
      → Adds nodes nodes' depth node b c ts us fs gs
  insert_child-Adds nodes nodes' depth node b c ts us fs gs w p lt ne vacant slots keeps below own =
      let (node', run, w', view) = insert_child-child_at b c lt ne node w vacant in
      let self : (b == b) ≡ true = ground arith in
      let (v, v_at, at_b) = view b lt in
      let here : child_at node' b ≡ done c = rw self at at_b in
      let others : (k : ℕ) → k < 256 → k ≢ b → child_at node' k ≡ child_at node k = λ k less other.
        let (v, at_k, at_k') = view k less in
        let test : (b == k) ≡ false = ground arith in rw test at at_k' ∙ sym at_k in
      let (ls, us0, rs, fl, gs0, fr, whole, nodes_whole, less, more, held, rebuild) =
        focus dataset b lt (omega arith) slots in
      elim held [
        | inr (c0, ne0, at0, below0, own0) ↦ absurd (ne0 (done_inj c0 0 (sym at0 ∙ vacant)))
        | inl (none, empty, empty') ↦
            let whole' : ts ≡ ls ++ rs = rw empty at whole in
            let nodes_whole' : fs ≡ fl ++ fr = rw empty' at nodes_whole in
            let (keeps_left, keeps_right) =
              Each-split (λ q. (node : Node) → load nodes q ≡ done node → load nodes' q ≡ done node)
                fl fr (rw nodes_whole' at keeps) in
            (
              node',
              run,
              w',
              insert_child-SamePrefix node b c node' p run,
              others,
              (
                ls,
                rs,
                fl,
                fr,
                whole',
                nodes_whole',
                less,
                more,
                rebuild nodes' node' c us gs keeps_left keeps_right others here ne below own,
              ),
            )
      ]
