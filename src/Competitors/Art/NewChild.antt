-- ===== src/Competitors/Art/NewChild.antt =====
-- `insert` at a node that has no child for the byte of the key (src/competitors/art.hpp).
use learned_secondary_index.Common.{
  ℕ, suc, ◌+◌, ◌*◌, ◌^◌, ◌<◌, ◌≡◌, ◌≢◌, refl, ap, ◌∙◌, sym, inl, inr, some, List, [], ◌∷◌, ◌++◌,
  length, get_elem?, get_or, arith,
}
use mathlib.Core.Path.{subst}
use learned_secondary_index.Common.Run.{done, ◌>>=◌}
use learned_secondary_index.Common.Word.{word}
use learned_secondary_index.Competitors.Art.Node.{
  Ptr, get_leaf_value, make_leaf, Node, header, max_prefix_length,
}
use learned_secondary_index.Competitors.Art.Heap.{Nodes, load, address_of, Tree, Ref}
use learned_secondary_index.Competitors.Art.Children.{insert_child, grows}
use learned_secondary_index.Competitors.Art.Search.{child_at}
use learned_secondary_index.Competitors.Art.Contract.{IsNode}
use learned_secondary_index.Competitors.Art.Insert.{replace}
use learned_secondary_index.Competitors.Art.Subtree.{byte, Each, Each-map, Each-both, HasPrefix}
use learned_secondary_index.Competitors.Art.Selection.{get_or-some, Near}
use learned_secondary_index.Competitors.Art.Footprint.{
  At, tip, Slots, Apart, Distinct, Keeps, Keeps-refl, Loaded, Slots-Loaded, Slots-Keeps,
}
use learned_secondary_index.Competitors.Art.HeapLaws.{load-fresh}
use learned_secondary_index.Competitors.Art.Add.{insert_child-Adds}
use learned_secondary_index.Competitors.Art.Links.{Points, NotOf}
use learned_secondary_index.Competitors.Art.Added.{added, added-apart, Inserted, Each-insert}
use learned_secondary_index.Competitors.Art.BoundNode.{byte_lt}
use learned_secondary_index.Competitors.Art.LeafSplit.{
  make_leaf-is_leaf, make_leaf-value, middle_nonempty,
}
use learned_secondary_index.Competitors.Art.Replace.{branch_again, replace_lem}

-- addresses that are not the next one
Apart-fresh :
    (dataset : List ℕ) (nodes : Nodes) (fs : List Ptr)
    → Each (Loaded dataset nodes) fs
    → Apart (address_of (length nodes)) fs
Apart-fresh dataset nodes fs loaded =
    Each-map (Loaded dataset nodes) (λ f. f ≢ address_of (length nodes)) fs
      (λ f (n, e). load-fresh nodes f n e) loaded

module _ (dataset : List ℕ) (k v : ℕ) (fits : k < 2 ^ 64) (small : v * 2 < word)
    (here : get_elem? dataset v ≡ some k) (t : Tree) (ref : Ref) (p : Ptr) (depth : ℕ) (node : Node)
    (ts : List ℕ) (gs : List Ptr) (points : Points t ref p) (there : load t.nodes p ≡ done node)
    (w : IsNode node) (size : length (header node).prefix ≡ max_prefix_length)
    (within : depth + (header node).prefix_length < 8)
    (path : Each
      (HasPrefix t.nodes dataset depth (header node).prefix_length (header node).prefix)
      ts)
    (slots : Slots dataset t.nodes (depth + (header node).prefix_length) node 0 ts gs)
    (distinct : Distinct (p ∷ gs)) (apart : Each (NotOf ref) (p ∷ gs))
    (near : Each (Near dataset k fits (depth + (header node).prefix_length)) ts)
    (shared : (i : ℕ)
      → i < (header node).prefix_length
      → byte k (depth + i) ≡ get_or (header node).prefix i 0) where
  pub new_child-Inserted :
      child_at node (byte k (depth + (header node).prefix_length)) ≡ done 0
      → Inserted dataset t ref depth v ts (p ∷ gs) (
          insert_child node (byte k (depth + (header node).prefix_length)) (make_leaf v)
          >>= λ node'. replace t ref p (grows node) node')
  new_child-Inserted vacant =
      let d = depth + (header node).prefix_length in
      let own : get_or dataset v 0 ≡ k = get_or-some dataset v k here in
      let value : get_leaf_value (make_leaf v) ≡ v = make_leaf-value v small in
      let below : At dataset t.nodes (suc d) (make_leaf v) (v ∷ []) [] =
        tip (make_leaf-is_leaf v small) (omega arith) k (rw value here) fits
          (ap (λ z. z ∷ []) (sym value)) refl in
      let (node', run, w', same, others, (ls, rs, fl, fr, whole, nodes_whole, less, more, slots')) =
        insert_child-Adds dataset t.nodes t.nodes d node (byte k d) (make_leaf v) ts (v ∷ []) gs []
          w size (byte_lt k d) (omega arith) vacant slots (Keeps-refl dataset t.nodes gs) below
          (ap (λ z. byte z d) own, tt) in
      let (t', q, run', linked, loaded, inner, ne, place_of_q, kept) =
        replace_lem dataset t ref p node node' (grows node) points apart.0 there in
      let order : added dataset v ts ≡ ls ++ (v ∷ rs) =
        ap (added dataset v) whole
        ∙ added-apart dataset k v fits d within own ls rs
            (subst (Each (Near dataset k fits d)) whole near) less more in
      let keeps : Keeps dataset t.nodes t'.nodes gs =
        Each-map (λ g. (g ≢ p) × NotOf ref g)
          (λ g. (n : Node) → load t.nodes g ≡ done n → load t'.nodes g ≡ done n) gs
          (λ g (other, free) n e. kept g n e other free)
          (Each-both (λ g. g ≢ p) (NotOf ref) gs distinct.0 apart.1) in
      let slots'' : Slots dataset t'.nodes d node' 0 (ls ++ (v ∷ rs)) gs =
        Slots-Keeps dataset t'.nodes
          (subst (λ fs. Slots dataset t.nodes d node' 0 (ls ++ (v ∷ rs)) fs) (sym nodes_whole)
            slots')
          keeps in
      let prefixes =
        Each-insert
          (HasPrefix t'.nodes dataset depth (header node).prefix_length (header node).prefix) ts
          (v ∷ []) ls rs whole path
          ((λ i lt. ap (λ z. byte z (depth + i)) own ∙ shared i lt), tt) in
      let tree =
        branch_again dataset t'.nodes depth q node node' (ls ++ (v ∷ rs)) gs inner ne loaded w' same
          within prefixes (middle_nonempty ls rs v) slots'' in
      let apart_q : Apart q gs = elim place_of_q [
        | inl e ↦ rw e distinct.0
        | inr e ↦ rw e (Apart-fresh dataset t.nodes gs (Slots-Loaded dataset slots))
      ] in
      (
        t',
        q,
        q ∷ gs,
        rw run run',
        linked,
        subst (λ us. At dataset t'.nodes depth q us (q ∷ gs)) (sym order) tree,
        (apart_q, distinct.1),
        (λ g n e free. (
          elim place_of_q [
            | inl same_place ↦ λ z. free.0 (sym same_place ∙ z)
            | inr next ↦ λ z. load-fresh t.nodes g n e (sym z ∙ next)
          ],
          free.1,
        )),
        λ g n e free other. kept g n e (λ z. free.0 (sym z)) other,
      )
