-- ===== src/Competitors/Art/LeafSplit.antt =====
-- `insert` at a leaf with another key (src/competitors/art.hpp): a new node takes its place, with both
-- leaves.
use learned_secondary_index.Common.{
  ℕ, zero, suc, ◌+◌, ◌-◌, ◌*◌, ◌%◌, ◌^◌, ◌≤◌, ◌<◌, ◌≡◌, ◌≢◌, refl, ap, ◌∙◌, sym, ◌==◌, true, false,
  inl, inr, some, List, [], ◌∷◌, ◌++◌, length, get_elem?, get_or, arith, length-append, ℕ_discrete,
}
use mathlib.Core.Path.{subst}
use learned_secondary_index.Common.Run.{done}
use learned_secondary_index.Common.Word.{word}
use learned_secondary_index.Common.Arrays.{at}
use learned_secondary_index.Competitors.Art.Node.{
  Ptr, is_leaf, get_leaf_value, make_leaf, Node, header,
}
use learned_secondary_index.Competitors.Art.Heap.{load_key, swap_bytes, address_of, Tree, Ref}
use learned_secondary_index.Competitors.Art.Insert.{common_length, fork, place, insert_at_leaf}
use learned_secondary_index.Competitors.Art.Subtree.{byte, Each, HasPrefix}
use learned_secondary_index.Competitors.Art.Selection.{get_or-some, Near}
use learned_secondary_index.Competitors.Art.Footprint.{At, tip, branch, Slots, Slots-Keeps, Keeps}
use learned_secondary_index.Competitors.Art.HeapLaws.{load-fresh}
use learned_secondary_index.Competitors.Art.Fork.{append-empty, fork_lem}
use learned_secondary_index.Competitors.Art.Links.{Points, place_lem}
use learned_secondary_index.Competitors.Art.Added.{added, added-apart, Inserted, Each-insert}
use learned_secondary_index.Competitors.Art.BoundNode.{byte_lt}
use learned_secondary_index.Competitors.Art.Bound.{at-bytes, Agree-from}
use learned_secondary_index.Competitors.Art.KeyOrder.{
  Agree, Agree-all, key-byte, at-key, compare_bytes_lem,
}

pub make_leaf-is_leaf : (v : ℕ) → v * 2 < word → is_leaf (make_leaf v) ≡ true
make_leaf-is_leaf v small = let one : make_leaf v % 2 ≡ 1 = omega arith in rw one refl

pub make_leaf-value : (v : ℕ) → v * 2 < word → get_leaf_value (make_leaf v) ≡ v
make_leaf-value v small = omega arith

pub middle_nonempty : (ls rs : List ℕ) (v : ℕ) → ls ++ (v ∷ rs) ≢ []
middle_nonempty [] rs v e = absurd (ground (arith, e))
middle_nonempty (l ∷ ls) rs v e = absurd (ground (arith, e))

both_empty : (fl fr : List Ptr) → fl ≡ [] → fr ≡ [] → [] ≡ fl ++ ([] ++ fr)
both_empty fl fr e f = rw (e, f) refl

common_length_lem :
    (fuel n i : ℕ) (a b : List ℕ) (depth : ℕ) (f g : ℕ → ℕ)
    → ((j : ℕ) → j ≤ i → at a (depth + j) ≡ done (f j))
    → ((j : ℕ) → j ≤ i → at b (depth + j) ≡ done (g j))
    → ((j : ℕ) → j < i → f j ≡ g j)
    → f i ≢ g i
    → n ≤ i
    → i < n + fuel
    → common_length fuel n a b depth ≡ done i
unfolding common_length
common_length_lem zero n i a b depth f g ra rb same differ le lt = absurd (omega arith)
common_length_lem (suc fuel) n i a b depth f g ra rb same differ le lt = elim (ℕ_discrete n i) [
  | yes e ↦
      let here : f n ≢ g n = rw e differ in
      let test : (f n == g n) ≡ false = ground arith in rw (ra n le, rb n le, test) (ap done e)
  | no other ↦
      let test : (f n == g n) ≡ true = ground (arith, same n (omega (arith, other))) in
      rw (ra n le, rb n le, test)
        (common_length_lem fuel (n + 1) i a b depth f g ra rb same differ (omega (arith, other))
          (omega arith))
]

module _ (dataset behind : List ℕ) (k v : ℕ) (fits : k < 2 ^ 64) (small : v * 2 < word)
    (here : get_elem? dataset v ≡ some k) (t : Tree) (ref : Ref) (p : Ptr) (depth x : ℕ)
    (is_tip : is_leaf p ≡ true) (there : get_elem? dataset (get_leaf_value p) ≡ some x)
    (fits' : x < 2 ^ 64) (points : Points t ref p) where
  abbrev key : List ℕ
  key = swap_bytes k ++ behind

  -- the first byte in which the keys differ
  abbrev Parts : (i : ℕ) → Type 0
  Parts i =
      (depth + i < 8)
      × (byte x (depth + i) ≢ byte k (depth + i))
      × ((j : ℕ) → j < i → byte x (depth + j) ≡ byte k (depth + j))

  parts : depth ≤ 8 → Agree depth x k → x ≢ k → (i : ℕ) × Parts i
  parts le same differ =
      elim (compare_bytes_lem (8 - depth) (swap_bytes x) depth (λ i. byte x (depth + i))
        (swap_bytes k) depth (λ i. byte k (depth + i))
        (λ i lt. at-bytes x (depth + i) (omega arith))
        (λ i lt. at-bytes k (depth + i) (omega arith))) [
          | inl (run, all) ↦
              let whole = Agree-from depth (8 - depth) x k same all in
              absurd (differ (Agree-all x k fits' fits (λ i lt. whole i (omega arith))))
          | inr (i, run, lt, other, before) ↦ (i, (omega arith, other, before))
        ]

  split_run :
      (i : ℕ) (node : Node) (t' : Tree)
      → Parts i
      → fork key depth i (byte x (depth + i)) p (byte k (depth + i)) (make_leaf v) ≡ done node
      → place t ref node ≡ done t'
      → insert_at_leaf dataset key v t p ref depth ≡ done t'
  unfolding insert_at_leaf load_key
  split_run i node t' (lt, differ, before) forked placed =
      let common : common_length 18 0 (swap_bytes x) key depth ≡ done i =
        common_length_lem 18 0 i (swap_bytes x) key depth (λ j. byte x (depth + j))
          (λ j. byte k (depth + j)) (λ j le. at-bytes x (depth + j) (omega arith))
          (λ j le. at-key k (depth + j) behind (omega arith)) before differ (omega arith)
          (omega arith) in
      rw (there, common, at-bytes x (depth + i) lt, at-key k (depth + i) behind lt, forked) placed

  -- An insertion of a key below 2 ^ 64 that reaches a leaf with another key returns, whatever
  -- bytes follow the inserted key: the pointer that pointed to the leaf points to a well-formed
  -- tree of exactly the two leaves, in the order of their keys, and every other node is as it
  -- was. The keys have the bytes in common that stand above the leaf, the position of the key is
  -- below 2 ^ 63, and the pointer is the root or a slot of a node.
  pub insert_at_leaf-Inserted :
      depth ≤ 8
      → Agree depth x k
      → x ≢ k
      → Inserted dataset t ref depth v
          (get_leaf_value p ∷ [])
          []
          (insert_at_leaf dataset key v t p ref depth)
  insert_at_leaf-Inserted le same differ =
      let (i, (lt, other, before)) = parts le same differ in
      let tv = get_leaf_value p in
      let d = depth + i in
      let own : get_or dataset tv 0 ≡ x = get_or-some dataset tv x there in
      let own' : get_or dataset v 0 ≡ k = get_or-some dataset v k here in
      let value : get_leaf_value (make_leaf v) ≡ v = make_leaf-value v small in
      let some_leaf : p ≢ 0 = λ null. ground (arith, null, is_tip) in
      let below : At dataset t.nodes (suc d) p (tv ∷ []) [] =
        tip is_tip (omega arith) x there fits' refl refl in
      let below' : At dataset t.nodes (suc d) (make_leaf v) (v ∷ []) [] =
        tip (make_leaf-is_leaf v small) (omega arith) k (rw value here) fits
          (ap (λ z. z ∷ []) (sym value)) refl in
      let (
        node,
        forked,
        w,
        size,
        l,
        path,
        (ls, rs, fl, fr, whole, nodes_whole, less, more, slots),
      ) =
        fork_lem dataset t.nodes d key depth i (byte x d) (byte k d) p (make_leaf v) (tv ∷ [])
          (v ∷ []) [] [] (omega (arith, length-append (swap_bytes k) behind)) (omega arith)
          (byte_lt x d) (byte_lt k d) other some_leaf (omega arith) below
          (ap (λ z. byte z d) own, tt) below' (ap (λ z. byte z d) own', tt) in
      let (t', placed, linked, loaded, frame) = place_lem t ref p node points in
      let q = address_of (length t.nodes) in
      let (no_left, no_right) = append-empty fl fr nodes_whole in
      let agree : Agree d (get_or dataset tv 0) k =
        λ j less. ap (λ z. byte z j) own ∙ Agree-from depth i x k same before j less in
      let near : Each (Near dataset k fits d) (tv ∷ []) =
        ((omega (arith, own, fits'), agree), tt) in
      let order =
        added-apart dataset k v fits d lt own' ls rs
          (subst (Each (Near dataset k fits d)) whole near) less more in
      let order' : added dataset v (tv ∷ []) ≡ ls ++ (v ∷ rs) =
        ap (added dataset v) whole ∙ order in
      let keeps : Keeps dataset t.nodes t'.nodes (fl ++ ([] ++ fr)) = rw (no_left, no_right) tt in
      let slots' = Slots-Keeps dataset t'.nodes slots keeps in
      let shared : (j : ℕ)
          → j < (header node).prefix_length
          → byte k (depth + j) ≡ get_or (header node).prefix j 0 =
        λ j less. sym (
          path j (omega (arith, l, less))
          ∙ key-byte k (depth + j) behind (omega (arith, l, less))) in
      let prefixes : Each
          (HasPrefix t'.nodes dataset depth (header node).prefix_length (header node).prefix)
          (ls ++ (v ∷ rs)) =
        Each-insert
          (HasPrefix t'.nodes dataset depth (header node).prefix_length (header node).prefix)
          (tv ∷ []) (v ∷ []) ls rs whole
          (
            (λ j less.
                ap (λ z. byte z (depth + j)) own
                ∙ before j (omega (arith, l, less))
                ∙ shared j less),
            tt,
          )
          ((λ j less. ap (λ z. byte z (depth + j)) own' ∙ shared j less), tt) in
      (
        t',
        q,
        q ∷ [],
        split_run i node t' (lt, other, before) forked placed,
        linked,
        subst (λ us. At dataset t'.nodes depth q us (q ∷ [])) (sym order')
            (branch node (ground arith) (omega arith) loaded w size (omega (arith, l)) prefixes
              (middle_nonempty ls rs v) (fl ++ ([] ++ fr))
              (subst
                (λ m. Slots dataset t'.nodes (depth + m) node 0 (ls ++ (v ∷ rs)) (fl ++ ([] ++ fr)))
                (sym l) slots')
              (ap (λ gs. q ∷ gs) (both_empty fl fr no_left no_right))),
        (tt, tt),
        (λ g n e apart. ((λ same. load-fresh t.nodes g n e (sym same)), tt)),
        λ g n e apart other. frame g n e other,
      )
