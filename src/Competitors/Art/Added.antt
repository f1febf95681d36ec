-- ===== src/Competitors/Art/Added.antt =====
-- The leaves of a tree with one more leaf, and what an insertion into a tree does
-- (src/competitors/art.hpp).
use learned_secondary_index.Common.{
  ℕ, suc, ◌^◌, ◌≤◌, ◌<◌, ◌≡◌, refl, ap, ltb, if◌then◌else◌, true, false, List, [], ◌∷◌, ◌++◌,
  get_or, arith,
}
use learned_secondary_index.Common.Run.{Run, done}
use learned_secondary_index.Competitors.Art.Node.{Ptr, Node}
use learned_secondary_index.Competitors.Art.Heap.{load, Tree, Ref}
use learned_secondary_index.Competitors.Art.Subtree.{byte, Each, Each-map, Each-append, Each-split}
use learned_secondary_index.Competitors.Art.Selection.{Near, Near-less, Near-more}
use learned_secondary_index.Competitors.Art.Footprint.{At, Apart, Distinct, Keeps}
use learned_secondary_index.Competitors.Art.Links.{Linked, NotOf, Frame}

module _ (dataset : List ℕ) where
  -- `v` behind the leaves whose keys are not above its own
  abbrev pub added : (v : ℕ) → List ℕ → List ℕ
  added v [] = v ∷ []
  added v (t ∷ ts) =
      if ltb (get_or dataset v 0) (get_or dataset t 0) then v ∷ t ∷ ts else t ∷ added v ts

  pub added-between :
      (v : ℕ) (ls rs : List ℕ)
      → Each (λ t. get_or dataset t 0 < get_or dataset v 0) ls
      → Each (λ t. get_or dataset v 0 < get_or dataset t 0) rs
      → added v (ls ++ rs) ≡ ls ++ (v ∷ rs)
  added-between v [] [] less more = refl
  added-between v [] (r ∷ rs) less more =
      let test : ltb (get_or dataset v 0) (get_or dataset r 0) ≡ true = ground (arith, more.0) in
      rw test refl
  added-between v (l ∷ ls) rs less more =
      let test : ltb (get_or dataset v 0) (get_or dataset l 0) ≡ false = ground (arith, less.0) in
      rw test (ap (◌∷◌ l) (added-between v ls rs less.1 more))

  -- What a run comes to that puts the leaf `v` into the tree at `ref`: the tree there has the leaf,
  -- in the order of the keys, and no other node changes.
  abbrev pub Inserted :
      Tree → Ref → (depth v : ℕ) → (ts : List ℕ) → (fs : List Ptr) → Run Tree → Type 0
  Inserted t ref depth v ts fs run =
      (t' : Tree) × (p : Ptr) × (fs' : List Ptr) × (run ≡ done t')
      × Linked t t' ref p
      × At dataset t'.nodes depth p (added v ts) fs'
      × Distinct fs'
      × ((g : Ptr) (n : Node) → load t.nodes g ≡ done n → Apart g fs → Apart g fs')
      × ((g : Ptr) (n : Node)
          → load t.nodes g ≡ done n
          → Apart g fs
          → NotOf ref g
          → load t'.nodes g ≡ done n)

pub Each-insert :
    (P : ℕ → Type 0) (us vs ls rs : List ℕ)
    → us ≡ ls ++ rs
    → Each P us
    → Each P vs
    → Each P (ls ++ (vs ++ rs))
Each-insert P us vs ls rs e p q =
    let (left, right) = Each-split P ls rs (rw e at p) in
    Each-append P ls (vs ++ rs) left (Each-append P vs rs q right)

pub Frame-Keeps :
    (dataset : List ℕ) (t t' : Tree) (ref : Ref) (fs : List Ptr)
    → Frame t t' ref
    → Each (NotOf ref) fs
    → Keeps dataset t.nodes t'.nodes fs
Frame-Keeps dataset t t' ref [] frame apart = tt
Frame-Keeps dataset t t' ref (f ∷ fs) frame apart =
    ((λ node there. frame f node there apart.0), Frame-Keeps dataset t t' ref fs frame apart.1)

module _ (dataset : List ℕ) (k v : ℕ) (fits : k < 2 ^ 64) where
  -- the leaves on both sides of the byte
  pub sides :
      (d : ℕ)
      → d < 8
      → get_or dataset v 0 ≡ k
      → (ls rs : List ℕ) → Each (Near dataset k fits d) ls
      → Each (Near dataset k fits d) rs
      → Each (λ u. byte (get_or dataset u 0) d < byte k d) ls
      → Each (λ u. suc (byte k d) ≤ byte (get_or dataset u 0) d) rs
      → Each (λ u. get_or dataset u 0 < get_or dataset v 0) ls
        × Each (λ u. get_or dataset v 0 < get_or dataset u 0) rs
  sides d lt own ls rs near_left near_right less more = (
    Each-map (λ u. get_or dataset u 0 < k) (λ u. get_or dataset u 0 < get_or dataset v 0) ls
        (λ u h. omega (arith, h, own)) (Near-less dataset k fits d ls lt near_left less),
    Each-map (λ u. k < get_or dataset u 0) (λ u. get_or dataset v 0 < get_or dataset u 0) rs
        (λ u h. omega (arith, h, own))
        (Near-more dataset k fits d rs lt near_right (
          Each-map (λ u. suc (byte k d) ≤ byte (get_or dataset u 0) d)
            (λ u. byte k d < byte (get_or dataset u 0) d) rs (λ u h. omega (arith, h)) more)),
  )

  pub added-apart :
      (d : ℕ)
      → d < 8
      → get_or dataset v 0 ≡ k
      → (ls rs : List ℕ) → Each (Near dataset k fits d) (ls ++ rs)
      → Each (λ u. byte (get_or dataset u 0) d < byte k d) ls
      → Each (λ u. suc (byte k d) ≤ byte (get_or dataset u 0) d) rs
      → added dataset v (ls ++ rs) ≡ ls ++ (v ∷ rs)
  added-apart d lt own ls rs near less more =
      let (near_left, near_right) = Each-split (Near dataset k fits d) ls rs near in
      let (left, right) = sides d lt own ls rs near_left near_right less more in
      added-between dataset v ls rs left right
