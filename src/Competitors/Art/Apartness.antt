-- ===== src/Competitors/Art/Apartness.antt =====
-- Addresses of parts of a tree, and what an insertion below one part does to the others
-- (src/competitors/art.hpp).
use learned_secondary_index.Common.{
  ℕ, ◌<◌, ◌≡◌, ◌≢◌, refl, ap, ◌∙◌, sym, ltb, Bool-cases, true, false, inl, inr, some, List, [], ◌∷◌,
  ◌++◌, get_or, arith,
}
use mathlib.Core.Path.{subst}
use learned_secondary_index.Common.Run.{done}
use learned_secondary_index.Competitors.Art.Node.{Ptr, Node}
use learned_secondary_index.Competitors.Art.Heap.{Nodes, load, Tree, Ref, tree_ref, null_node, slot}
use learned_secondary_index.Competitors.Art.Subtree.{
  Each, Each-append, Each-split, Each-map, Each-both,
}
use learned_secondary_index.Competitors.Art.Footprint.{
  At, tip, branch, Apart, Distinct, Keeps, Loaded,
}
use learned_secondary_index.Competitors.Art.SamePrefix.{done_inj}
use learned_secondary_index.Competitors.Art.Links.{Points, NotOf, Linked}
use learned_secondary_index.Competitors.Art.Added.{added}
use learned_secondary_index.Competitors.Art.Replace.{rewritten-same}

module _ (dataset : List ℕ) (v : ℕ) where
  pub Each-added : (P : ℕ → Type 0) (ts : List ℕ) → P v → Each P ts → Each P (added dataset v ts)
  Each-added P [] here all = (here, tt)
  Each-added P (t ∷ ts) here all =
      elim (Bool-cases (ltb (get_or dataset v 0) (get_or dataset t 0))) [
        | inl e ↦ rw e (here, all)
        | inr e ↦ rw e (all.0, Each-added P ts here all.1)
      ]

  pub added-nonempty : (ts : List ℕ) → added dataset v ts ≢ []
  added-nonempty [] e = absurd (ground (arith, e))
  added-nonempty (t ∷ ts) e = elim (Bool-cases (ltb (get_or dataset v 0) (get_or dataset t 0))) [
    | inl test ↦ absurd (ground (arith, rw test at e))
    | inr test ↦ absurd (ground (arith, rw test at e))
  ]

  added-front :
      (us rs : List ℕ)
      → Each (λ t. get_or dataset v 0 < get_or dataset t 0) rs
      → added dataset v (us ++ rs) ≡ added dataset v us ++ rs
  added-front [] [] more = refl
  added-front [] (r ∷ rs) more =
      let test : ltb (get_or dataset v 0) (get_or dataset r 0) ≡ true = ground (arith, more.0) in
      rw test refl
  added-front (u ∷ us) rs more = elim (Bool-cases (ltb (get_or dataset v 0) (get_or dataset u 0))) [
    | inl e ↦ rw e refl
    | inr e ↦ rw e (ap (◌∷◌ u) (added-front us rs more))
  ]

  pub added-within :
      (ls us rs : List ℕ)
      → Each (λ t. get_or dataset t 0 < get_or dataset v 0) ls
      → Each (λ t. get_or dataset v 0 < get_or dataset t 0) rs
      → added dataset v (ls ++ (us ++ rs)) ≡ ls ++ (added dataset v us ++ rs)
  added-within [] us rs less more = added-front us rs more
  added-within (l ∷ ls) us rs less more =
      let test : ltb (get_or dataset v 0) (get_or dataset l 0) ≡ false = ground (arith, less.0) in
      rw test (ap (◌∷◌ l) (added-within ls us rs less.1 more))

pub Each-swap : (xs ys : List Ptr) → Each (λ x. Apart x ys) xs → Each (λ y. Apart y xs) ys
Each-swap xs [] h = tt
Each-swap xs (y ∷ ys) h = (
  Each-map (λ x. Apart x (y ∷ ys)) (λ x. x ≢ y) xs (λ x free same. free.0 (sym same)) h,
  Each-swap xs ys (Each-map (λ x. Apart x (y ∷ ys)) (λ x. Apart x ys) xs (λ x free. free.1) h),
)

pub Distinct-split :
    (xs ys : List Ptr) → Distinct (xs ++ ys) → Distinct xs × Distinct ys × Each (λ x. Apart x ys) xs
Distinct-split [] ys d = (tt, d, tt)
Distinct-split (x ∷ xs) ys d =
    let (left, right, cross) = Distinct-split xs ys d.1 in
    let (first, second) = Each-split (λ f. f ≢ x) xs ys d.0 in
    ((first, left), right, (second, cross))

pub Distinct-append :
    (xs ys : List Ptr) → Distinct xs → Distinct ys → Each (λ x. Apart x ys) xs → Distinct (xs ++ ys)
Distinct-append [] ys left right cross = right
Distinct-append (x ∷ xs) ys left right cross =
    (Each-append (λ f. f ≢ x) xs ys left.0 cross.0, Distinct-append xs ys left.1 right cross.1)

pub Linked-kept :
    (t t' : Tree) (ref : Ref) (p : Ptr) (gs : List Ptr)
    → Points t ref p
    → t'.root ≡ t.root
    → ((g : Ptr) (n : Node)
        → load t.nodes g ≡ done n
        → Apart g gs
        → g ≢ p
        → load t'.nodes g ≡ done n)
    → Each (NotOf ref) gs
    → NotOf ref p
    → Linked t t' ref p
Linked-kept t t' tree_ref p gs points root kept apart apart_p = root ∙ points
Linked-kept t t' null_node p gs points root kept apart apart_p = points
Linked-kept t t' (slot q i) p gs (node, there, here) root kept apart apart_p = (
  root,
  λ old e.
      let same : old ≡ node = done_inj old node (sym e ∙ there) in
      rw (same, rewritten-same node i p here) (kept q node there apart (λ z. apart_p (sym z))),
)

pub some_inj : (x y : ℕ) → some x ≡ some y → x ≡ y
some_inj x y e = ground (arith, e)

pub At-nonnull :
    {dataset : List ℕ} {nodes : Nodes} {depth : ℕ} {p : Ptr} {ts : List ℕ} {fs : List Ptr}
    → At dataset nodes depth p ts fs
    → p ≢ 0
At-nonnull (tip l d x at small e f) null = absurd (ground (arith, null, l))
At-nonnull (branch node l ne at w whole within path nonempty gs slots f) null = ne null

pub three :
    (P : ℕ → Type 0) (xs ys zs : List ℕ)
    → Each P (xs ++ (ys ++ zs))
    → Each P xs × Each P ys × Each P zs
three P xs ys zs all =
    let (left, rest) = Each-split P xs (ys ++ zs) all in
    let (between, right) = Each-split P ys zs rest in (left, between, right)

pub middle : (fl hs fr gs : List Ptr) → gs ≡ fl ++ (hs ++ fr) → (g : Ptr) → Apart g gs → Apart g hs
middle fl hs fr gs e g free =
    let (left, between, right) = three (λ f. f ≢ g) fl hs fr (subst (Apart g) e free) in between

-- the nodes that an insertion keeps, and those that are not among the new ones
module _ (dataset : List ℕ) (t t' : Tree) (p : Ptr) (fs hs : List Ptr)
    (kept : (g : Ptr) (n : Node)
      → load t.nodes g ≡ done n
      → Apart g hs
      → g ≢ p
      → load t'.nodes g ≡ done n) where
  pub all_kept :
      Each (λ g. Apart g hs) fs → Each (λ g. g ≢ p) fs → Keeps dataset t.nodes t'.nodes fs
  all_kept free other =
      Each-map (λ g. Apart g hs × (g ≢ p))
        (λ g. (n : Node) → load t.nodes g ≡ done n → load t'.nodes g ≡ done n) fs
        (λ g (apart, away) n e. kept g n e apart away)
        (Each-both (λ g. Apart g hs) (λ g. g ≢ p) fs free other)

pub grown_all :
    (dataset : List ℕ) (t : Tree) (fs hs fs' : List Ptr)
    → ((g : Ptr) (n : Node) → load t.nodes g ≡ done n → Apart g hs → Apart g fs')
    → Each (Loaded dataset t.nodes) fs
    → Each (λ g. Apart g hs) fs
    → Each (λ g. Apart g fs') fs
grown_all dataset t fs hs fs' grown loaded free =
    Each-map (λ g. Loaded dataset t.nodes g × Apart g hs) (λ g. Apart g fs') fs
      (λ g ((n, e), apart). grown g n e apart)
      (Each-both (Loaded dataset t.nodes) (λ g. Apart g hs) fs loaded free)

pub grown_both :
    (dataset : List ℕ) (t : Tree) (fl hs fs' fr : List Ptr)
    → ((g : Ptr) (n : Node) → load t.nodes g ≡ done n → Apart g hs → Apart g fs')
    → Each (Loaded dataset t.nodes) fl
    → Each (λ g. Apart g (hs ++ fr)) fl
    → Each (λ g. Apart g (fs' ++ fr)) fl
grown_both dataset t fl hs fs' fr grown loaded free =
    Each-map (λ g. Loaded dataset t.nodes g × Apart g (hs ++ fr)) (λ g. Apart g (fs' ++ fr)) fl
      (λ g ((n, e), apart).
        let (left, right) = Each-split (λ f. f ≢ g) hs fr apart in
        Each-append (λ f. f ≢ g) fs' fr (grown g n e left) right)
      (Each-both (Loaded dataset t.nodes) (λ g. Apart g (hs ++ fr)) fl loaded free)
