-- ===== src/Competitors/Art/Selection.antt =====
-- The leaves of a tree whose keys are not below the one that is looked up
-- (src/competitors/art.hpp).
use learned_secondary_index.Common.{
  ℕ, zero, suc, ◌^◌, ◌≤◌, ◌<◌, ◌≡◌, refl, ap, sym, ltb, if◌then◌else◌, Bool-cases, true, false, inl,
  inr, List, [], ◌∷◌, ◌++◌, get_or, some, get_elem?, arith,
}
use learned_secondary_index.Competitors.Art.Node.{Ptr, Node, get_leaf_value}
use learned_secondary_index.Competitors.Art.Heap.{Nodes}
use learned_secondary_index.Competitors.Art.KeyOrder.{Agree, less_at}
use learned_secondary_index.Competitors.Art.Subtree.{
  byte, Each, Each-append, Each-map, Each-both, Below, leaf, inner, Kids, end, gap, kid,
}

module _ (dataset : List ℕ) (k : ℕ) where
  abbrev pub from_key : List ℕ → List ℕ
  from_key [] = []
  from_key (t ∷ ts) = if ltb (get_or dataset t 0) k then from_key ts else t ∷ from_key ts

  pub from_key-append : (ts us : List ℕ) → from_key (ts ++ us) ≡ from_key ts ++ from_key us
  from_key-append [] us = refl
  from_key-append (t ∷ ts) us = elim (Bool-cases (ltb (get_or dataset t 0) k)) [
    | inl e ↦ rw e (from_key-append ts us)
    | inr e ↦ rw e (ap (◌∷◌ t) (from_key-append ts us))
  ]

  pub from_key-none : (ts : List ℕ) → Each (λ t. get_or dataset t 0 < k) ts → from_key ts ≡ []
  from_key-none [] h = refl
  from_key-none (t ∷ ts) (less, h) =
      let test : ltb (get_or dataset t 0) k ≡ true = ground arith in rw test (from_key-none ts h)

  pub from_key-all : (ts : List ℕ) → Each (λ t. k ≤ get_or dataset t 0) ts → from_key ts ≡ ts
  from_key-all [] h = refl
  from_key-all (t ∷ ts) (above, h) =
      let test : ltb (get_or dataset t 0) k ≡ false = ground arith in
      rw test (ap (◌∷◌ t) (from_key-all ts h))

pub get_or-some : (a : List ℕ) (i x : ℕ) → get_elem? a i ≡ some x → get_or a i 0 ≡ x
get_or-some [] i x e = absurd (ground arith)
get_or-some (y ∷ a) zero x e = ground arith
get_or-some (y ∷ a) (suc i) x e = get_or-some a i x e

abbrev pub Fits : (dataset : List ℕ) → ℕ → Type 0
Fits dataset t = get_or dataset t 0 < 2 ^ 64

module _ (nodes : Nodes) (dataset : List ℕ) where
  mutual
    pub Below-Fits :
        {depth : ℕ} {p : Ptr} {ts : List ℕ}
        → Below nodes dataset depth p ts
        → Each (Fits dataset) ts
    Below-Fits {p = p} (leaf l d x at fits e) =
        rw (e, get_or-some dataset (get_leaf_value p) x at) (fits, tt)
    Below-Fits (inner node l n at w size d prefix ne kids) = Kids-Fits kids

    Kids-Fits :
        {depth : ℕ} {node : Node} {b : ℕ} {ts : List ℕ}
        → Kids nodes dataset depth node b ts
        → Each (Fits dataset) ts
    Kids-Fits (end e f) = rw f tt
    Kids-Fits (gap lt free rest) = Kids-Fits rest
    Kids-Fits (kid lt c ne at us vs below same rest e) =
        rw e (Each-append (Fits dataset) us vs (Below-Fits below) (Kids-Fits rest))

module _ (dataset : List ℕ) (k : ℕ) (fits : k < 2 ^ 64) where
  -- a leaf whose key has the first `j` bytes of the key that is looked up
  abbrev pub Near : (j : ℕ) → ℕ → Type 0
  Near j t = Fits dataset t × Agree j (get_or dataset t 0) k

  pub Near-less :
      (j : ℕ) (ts : List ℕ)
      → j < 8
      → Each (Near j) ts
      → Each (λ t. byte (get_or dataset t 0) j < byte k j) ts
      → Each (λ t. get_or dataset t 0 < k) ts
  Near-less j ts lt near less =
      Each-map (λ t. Near j t × (byte (get_or dataset t 0) j < byte k j))
        (λ t. get_or dataset t 0 < k) ts
        (λ t ((small, same), first). less_at j (get_or dataset t 0) k small fits lt same first)
        (Each-both (Near j) (λ t. byte (get_or dataset t 0) j < byte k j) ts near less)

  pub Near-more :
      (j : ℕ) (ts : List ℕ)
      → j < 8
      → Each (Near j) ts
      → Each (λ t. byte k j < byte (get_or dataset t 0) j) ts
      → Each (λ t. k < get_or dataset t 0) ts
  Near-more j ts lt near more =
      Each-map (λ t. Near j t × (byte k j < byte (get_or dataset t 0) j))
        (λ t. k < get_or dataset t 0) ts
        (λ t ((small, same), first).
          less_at j k (get_or dataset t 0) fits small lt (λ i le. sym (same i le)) first)
        (Each-both (Near j) (λ t. byte k j < byte (get_or dataset t 0) j) ts near more)

  pub from_key-less :
      (j : ℕ) (ts : List ℕ)
      → j < 8
      → Each (Near j) ts
      → Each (λ t. byte (get_or dataset t 0) j < byte k j) ts
      → from_key dataset k ts ≡ []
  from_key-less j ts lt near less = from_key-none dataset k ts (Near-less j ts lt near less)

  pub from_key-more :
      (j : ℕ) (ts : List ℕ)
      → j < 8
      → Each (Near j) ts
      → Each (λ t. byte k j < byte (get_or dataset t 0) j) ts
      → from_key dataset k ts ≡ ts
  from_key-more j ts lt near more = from_key-all dataset k ts (
      Each-map (λ t. k < get_or dataset t 0) (λ t. k ≤ get_or dataset t 0) ts
        (λ t h. omega (arith, h)) (Near-more j ts lt near more))
