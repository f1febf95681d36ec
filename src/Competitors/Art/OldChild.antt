-- ===== src/Competitors/Art/OldChild.antt =====
-- `insert` at a node that has a child for the byte of the key (src/competitors/art.hpp): the tree below
-- the child has the leaf afterwards, and so has the tree of the node.
use learned_secondary_index.Common.{
  ℕ, suc, ◌+◌, ◌^◌, ◌<◌, ◌≡◌, ◌≢◌, refl, ap, ◌∙◌, sym, false, inl, inr, some, List, ◌∷◌, ◌++◌,
  length, get_elem?, get_or, arith,
}
use mathlib.Core.Path.{subst}
use learned_secondary_index.Common.Run.{Run, done}
use learned_secondary_index.Competitors.Art.Node.{
  Ptr, is_leaf, Node, header, children, max_prefix_length,
}
use learned_secondary_index.Competitors.Art.Heap.{load, Tree, Ref, slot}
use learned_secondary_index.Competitors.Art.Children.{find_child}
use learned_secondary_index.Competitors.Art.Search.{child_at}
use learned_secondary_index.Competitors.Art.Contract.{IsNode}
use learned_secondary_index.Competitors.Art.Subtree.{
  byte, Each, Each-append, Each-split, Each-map, Each-both, HasPrefix,
}
use learned_secondary_index.Competitors.Art.KeyOrder.{Agree-suc}
use learned_secondary_index.Competitors.Art.Selection.{Near}
use learned_secondary_index.Competitors.Art.Footprint.{
  At, Slots, Apart, Distinct, Loaded, Slots-Loaded,
}
use learned_secondary_index.Competitors.Art.Focus.{focus}
use learned_secondary_index.Competitors.Art.Slot.{rewritten, header-rewritten, slot_lem}
use learned_secondary_index.Competitors.Art.SamePrefix.{SamePrefix, done_inj}
use learned_secondary_index.Competitors.Art.Links.{Points, NotOf}
use learned_secondary_index.Competitors.Art.Added.{added, sides, Inserted}
use learned_secondary_index.Competitors.Art.BoundNode.{byte_lt}
use learned_secondary_index.Competitors.Art.Replace.{branch_again}
use learned_secondary_index.Competitors.Art.Apartness.{
  Each-added, added-nonempty, added-within, Each-swap, Distinct-split, Distinct-append, Linked-kept,
  some_inj, At-nonnull, three, middle, all_kept, grown_all, grown_both,
}

module _ (dataset : List ℕ) (k v : ℕ) (fits : k < 2 ^ 64) (own : get_or dataset v 0 ≡ k) (t : Tree)
    (ref : Ref) (p : Ptr) (depth : ℕ) (node : Node) (ts : List ℕ) (gs : List Ptr)
    (points : Points t ref p) (not_leaf : is_leaf p ≡ false) (ne : p ≢ 0)
    (there : load t.nodes p ≡ done node) (w : IsNode node)
    (size : length (header node).prefix ≡ max_prefix_length)
    (within : depth + (header node).prefix_length < 8)
    (path : Each
      (HasPrefix t.nodes dataset depth (header node).prefix_length (header node).prefix)
      ts)
    (slots : Slots dataset t.nodes (depth + (header node).prefix_length) node 0 ts gs)
    (distinct : Distinct (p ∷ gs)) (apart : Each (NotOf ref) (p ∷ gs))
    (near : Each (Near dataset k fits (depth + (header node).prefix_length)) ts)
    (absent : Each (λ u. get_or dataset u 0 ≢ k) ts)
    (shared : (i : ℕ)
      → i < (header node).prefix_length
      → byte k (depth + i) ≡ get_or (header node).prefix i 0)
    (run : (i : ℕ) → (c : Ptr) → Run Tree)
    (deeper : (i : ℕ) (c : Ptr) (us : List ℕ) (hs : List Ptr)
      → get_elem? (children node) i ≡ some c
      → At dataset t.nodes (suc (depth + (header node).prefix_length)) c us hs
      → Distinct hs
      → Apart p hs
      → Each (Near dataset k fits (suc (depth + (header node).prefix_length))) us
      → Each (λ u. get_or dataset u 0 ≢ k) us
      → Inserted dataset t
          (slot p i)
          (suc (depth + (header node).prefix_length))
          v
          us
          hs
          (run i c)) where
  pub old_child-Inserted :
      (c : Ptr) (i : ℕ)
      → c ≢ 0
      → child_at node (byte k (depth + (header node).prefix_length)) ≡ done c
      → find_child node (byte k (depth + (header node).prefix_length)) ≡ done (some i)
      → Inserted dataset t ref depth v ts (p ∷ gs) (run i c)
  old_child-Inserted c i some_child at_b found =
      let d = depth + (header node).prefix_length in
      let b = byte k d in
      let (j, found', there_c, rewrite) = slot_lem node b c w (byte_lt k d) at_b some_child in
      let same_slot : j ≡ i = some_inj j i (done_inj (some j) (some i) (sym found' ∙ found)) in
      let (ls, us, rs, fl, hs, fr, whole, nodes_whole, less, more, held, rebuild) =
        focus dataset b (byte_lt k d) (omega arith) slots in
      elim held [
        | inl (none_there, empty, empty') ↦
            absurd (some_child (done_inj c 0 (sym at_b ∙ none_there)))
        | inr (c0, ne0, at0, below, own_byte) ↦
            let same_child : c0 ≡ c = done_inj c0 c (sym at0 ∙ at_b) in
            let below_c = subst (λ z. At dataset t.nodes (suc d) z us hs) same_child below in
            let (dl, d_rest, cross) =
              Distinct-split fl (hs ++ fr) (subst Distinct nodes_whole distinct.1) in
            let (dh, dr, cross') = Distinct-split hs fr d_rest in
            let (pl, ph, pr) =
              three (λ f. f ≢ p) fl hs fr (subst (Apart p) nodes_whole distinct.0) in
            let (ll, lh, lr) =
              three (Loaded dataset t.nodes) fl hs fr
                (subst (Each (Loaded dataset t.nodes)) nodes_whole (Slots-Loaded dataset slots)) in
            let (nl, nu, nr) =
              three (Near dataset k fits d) ls us rs
                (subst (Each (Near dataset k fits d)) whole near) in
            let (al, au, ar) =
              three (λ u. get_or dataset u 0 ≢ k) ls us rs
                (subst (Each (λ u. get_or dataset u 0 ≢ k)) whole absent) in
            let near_child =
              Each-map (λ u. Near dataset k fits d u × (byte (get_or dataset u 0) d ≡ b))
                (Near dataset k fits (suc d)) us
                (λ u ((small, agree), q). (small, Agree-suc d (get_or dataset u 0) k agree q))
                (Each-both (Near dataset k fits d) (λ u. byte (get_or dataset u 0) d ≡ b) us nu
                  own_byte) in
            let here = subst (λ z. get_elem? (children node) z ≡ some c) same_slot there_c in
            let (t', c', fs', run', (root, change), tree, distinct', grown, kept) =
              deeper i c us hs here below_c dh ph near_child au in
            let (w', at_b', others) = rewrite c' (At-nonnull tree) in
            let loaded : load t'.nodes p ≡ done (rewritten node j c') =
              change node there ∙ ap (λ z. done (rewritten node z c')) (sym same_slot) in
            let own_v : byte (get_or dataset v 0) d ≡ b = ap (λ z. byte z d) own in
            let left_free =
              Each-map (λ g. Apart g (hs ++ fr)) (λ g. Apart g hs) fl
                (λ g free. (Each-split (λ f. f ≢ g) hs fr free).0) cross in
            let right_free = Each-swap hs fr cross' in
            let slots' =
              rebuild t'.nodes (rewritten node j c') c' (added dataset v us) fs'
                (all_kept dataset t t' p fl hs kept left_free pl)
                (all_kept dataset t t' p fr hs kept right_free pr) others at_b' (At-nonnull tree)
                tree
                (Each-added dataset v (λ u. byte (get_or dataset u 0) d ≡ b) us own_v own_byte) in
            let (left, right) = sides dataset k v fits d within own ls rs nl nr less more in
            let order : added dataset v ts ≡ ls ++ (added dataset v us ++ rs) =
              ap (added dataset v) whole ∙ added-within dataset v ls us rs left right in
            let same : SamePrefix (header node) (header (rewritten node j c')) =
              rw (header-rewritten node j c') (refl, size, λ i small lt. refl) in
            let prefixes =
              Each-added dataset v
                (HasPrefix t'.nodes dataset depth (header node).prefix_length (header node).prefix)
                ts (λ i lt. ap (λ z. byte z (depth + i)) own ∙ shared i lt) path in
            let whole_tree =
              branch_again dataset t'.nodes depth p node (rewritten node j c') (added dataset v ts)
                (fl ++ (fs' ++ fr)) not_leaf ne loaded w' same within prefixes
                (added-nonempty dataset v ts)
                (subst (λ z. Slots dataset t'.nodes d (rewritten node j c') 0 z (fl ++ (fs' ++ fr)))
                  (sym order) slots') in
            (
              t',
              p,
              p ∷ (fl ++ (fs' ++ fr)),
              run',
              Linked-kept t t' ref p gs points root
                  (λ g n e free other. kept g n e (middle fl hs fr gs nodes_whole g free) other)
                  apart.1 apart.0,
              whole_tree,
              (
                Each-append (λ f. f ≢ p) fl (fs' ++ fr) pl
                    (Each-append (λ f. f ≢ p) fs' fr (grown p node there ph) pr),
                Distinct-append fl (fs' ++ fr) dl
                    (Distinct-append fs' fr distinct' dr
                      (Each-swap fr fs' (grown_all dataset t fr hs fs' grown lr right_free)))
                    (grown_both dataset t fl hs fs' fr grown ll cross),
              ),
              (λ g n e free.
                  let (gl, gh, gr) =
                    three (λ f. f ≢ g) fl hs fr (subst (Apart g) nodes_whole free.1) in
                  (
                    free.0,
                    Each-append (λ f. f ≢ g) fl (fs' ++ fr) gl
                        (Each-append (λ f. f ≢ g) fs' fr (grown g n e gh) gr),
                  )),
              λ g n e free other.
                  kept g n e (middle fl hs fr gs nodes_whole g free.1) (λ z. free.0 (sym z)),
            )
      ]
