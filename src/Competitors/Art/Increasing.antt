-- ===== src/Competitors/Art/Increasing.antt =====
-- The leaves of a tree stand in the order of their keys (src/competitors/art.hpp).
use learned_secondary_index.Common.{
  ℕ, suc, ◌+◌, ◌-◌, ◌≤◌, ◌<◌, ◌≡◌, ap, ◌∙◌, sym, ltb, if◌then◌else◌, Bool-cases, true, false, inl,
  inr, List, [], ◌∷◌, ◌++◌, get_or, arith, dec_lt,
}
use learned_secondary_index.Competitors.Art.Node.{Ptr, Node, header}
use learned_secondary_index.Competitors.Art.Heap.{Nodes}
use learned_secondary_index.Competitors.Art.KeyOrder.{less_at}
use learned_secondary_index.Competitors.Art.Kids.{Kids-byte}
use learned_secondary_index.Competitors.Art.Selection.{Fits, from_key}
use learned_secondary_index.Competitors.Art.Subtree.{
  byte, Each, Each-append, Each-split, Each-map, Each-both, HasPrefix, Below, leaf, inner, Kids,
  end, gap, kid,
}

module _ (dataset : List ℕ) where
  abbrev pub Before : ℕ → ℕ → Type 0
  Before t u = get_or dataset t 0 < get_or dataset u 0

  -- every leaf has a smaller key than those behind it
  abbrev pub Increasing : List ℕ → Type 0
  Increasing [] = Unit
  Increasing (t ∷ ts) = Each (Before t) ts × Increasing ts

  Increasing-append :
      (ts us : List ℕ)
      → Increasing ts
      → Increasing us
      → Each (λ t. Each (Before t) us) ts
      → Increasing (ts ++ us)
  Increasing-append [] us p q cross = q
  Increasing-append (t ∷ ts) us p q cross =
      (Each-append (Before t) ts us p.0 cross.0, Increasing-append ts us p.1 q cross.1)

  Each-from_key :
      (P : ℕ → Type 0) (k : ℕ) (ts : List ℕ) → Each P ts → Each P (from_key dataset k ts)
  Each-from_key P k [] h = tt
  Each-from_key P k (t ∷ ts) h = elim (Bool-cases (ltb (get_or dataset t 0) k)) [
    | inl e ↦ rw e (Each-from_key P k ts h.1)
    | inr e ↦ rw e (h.0, Each-from_key P k ts h.1)
  ]

  pub Increasing-from_key :
      (k : ℕ) (ts : List ℕ) → Increasing ts → Increasing (from_key dataset k ts)
  Increasing-from_key k [] h = tt
  Increasing-from_key k (t ∷ ts) h = elim (Bool-cases (ltb (get_or dataset t 0) k)) [
    | inl e ↦ rw e (Increasing-from_key k ts h.1)
    | inr e ↦ rw e (Each-from_key (Before t) k ts h.0, Increasing-from_key k ts h.1)
  ]

  -- a leaf whose key begins with `d` given bytes
  abbrev pub Shares : (d : ℕ) → (g : ℕ → ℕ) → ℕ → Type 0
  Shares d g t = Fits dataset t × ((i : ℕ) → i < d → byte (get_or dataset t 0) i ≡ g i)

  abbrev splice : (d : ℕ) → (g h : ℕ → ℕ) → ℕ → ℕ
  splice d g h i = if ltb i d then g i else h (i - d)

  Shares-splice :
      (d m : ℕ) (g h : ℕ → ℕ) (t : ℕ)
      → Shares d g t
      → ((i : ℕ) → i < m → byte (get_or dataset t 0) (d + i) ≡ h i)
      → Shares (d + m) (splice d g h) t
  Shares-splice d m g h t (small, same) more = (
    small,
    λ i less. elim (dec_lt i d) [
      | yes before ↦ let test : ltb i d ≡ true = ground arith in rw test (same i before)
      | no behind ↦
          let test : ltb i d ≡ false = ground (arith, behind) in
          let here : i ≡ d + (i - d) = omega (arith, behind) in
          rw test (ap (byte (get_or dataset t 0)) here ∙ more (i - d) (omega (arith, behind)))
    ],
  )

  -- the leaves below a child are before those below the later ones
  crosses :
      (d b : ℕ) (g : ℕ → ℕ) (us vs : List ℕ)
      → d < 8
      → Each (Shares d g) us
      → Each (λ t. byte (get_or dataset t 0) d ≡ b) us
      → Each (Shares d g) vs
      → Each (λ t. suc b ≤ byte (get_or dataset t 0) d) vs
      → Each (λ t. Each (Before t) vs) us
  crosses d b g us vs lt share own share' later =
      Each-map (λ t. Shares d g t × (byte (get_or dataset t 0) d ≡ b)) (λ t. Each (Before t) vs) us
        (λ t ((small, same), here).
          Each-map (λ u. Shares d g u × (suc b ≤ byte (get_or dataset u 0) d)) (Before t) vs
            (λ u ((small', same'), above).
              less_at d (get_or dataset t 0) (get_or dataset u 0) small small' lt
                (λ i less. same i less ∙ sym (same' i less)) (omega (arith, here, above)))
            (Each-both (Shares d g) (λ u. suc b ≤ byte (get_or dataset u 0) d) vs share' later))
        (Each-both (Shares d g) (λ t. byte (get_or dataset t 0) d ≡ b) us share own)

module _ (nodes : Nodes) (dataset : List ℕ) where
  mutual
    pub Below-Increasing :
        {depth : ℕ} {p : Ptr} {ts : List ℕ} (g : ℕ → ℕ)
        → Below nodes dataset depth p ts
        → Each (Shares dataset depth g) ts
        → Increasing dataset ts
    Below-Increasing g (leaf l d x at fits e) share = rw e (tt, tt)
    Below-Increasing {depth} {p} {ts} g (inner node l n at w size d path ne kids) share =
        let n_bytes = (header node).prefix_length in
        let h : ℕ → ℕ = λ i. get_or (header node).prefix i 0 in
        let longer =
          Each-map
            (λ t.
              Shares dataset depth g t
              × HasPrefix nodes dataset depth n_bytes (header node).prefix t)
            (Shares dataset (depth + n_bytes) (splice dataset depth g h)) ts
            (λ t (shares, own). Shares-splice dataset depth n_bytes g h t shares own)
            (Each-both (Shares dataset depth g)
              (HasPrefix nodes dataset depth n_bytes (header node).prefix) ts share path) in
        Kids-Increasing (splice dataset depth g h) kids d longer

    Kids-Increasing :
        {depth : ℕ} {node : Node} {b : ℕ} {ts : List ℕ} (g : ℕ → ℕ)
        → Kids nodes dataset depth node b ts
        → depth < 8
        → Each (Shares dataset depth g) ts
        → Increasing dataset ts
    Kids-Increasing g (end e f) lt share = rw f tt
    Kids-Increasing g (gap lt' free rest) lt share = Kids-Increasing g rest lt share
    Kids-Increasing {depth} {node} {b} {ts} g (kid lt' c ne at us vs below same rest e) lt share =
        let parts = Each-split (Shares dataset depth g) us vs (rw e at share) in
        let one : depth + 1 ≡ suc depth = omega arith in
        let child =
          Each-map (λ t. Shares dataset depth g t × (byte (get_or dataset t 0) depth ≡ b))
            (Shares dataset (suc depth) (splice dataset depth g (λ i. b))) us
            (λ t (shares, here). rw one at (
              Shares-splice dataset depth 1 g (λ i. b) t shares
                (λ i less. let z : depth + i ≡ depth = omega arith in rw z here)))
            (Each-both (Shares dataset depth g) (λ t. byte (get_or dataset t 0) depth ≡ b) us
              parts.0 same) in
        rw e (
          Increasing-append dataset us vs
            (Below-Increasing (splice dataset depth g (λ i. b)) below child)
            (Kids-Increasing g rest lt parts.1)
            (crosses dataset depth b g us vs lt parts.0 same parts.1
              (Kids-byte nodes dataset rest)))
