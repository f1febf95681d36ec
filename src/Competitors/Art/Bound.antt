-- ===== src/Competitors/Art/Bound.antt =====
-- The steps of `bound` (src/competitors/art.hpp) at a leaf and at the compressed path of a node.
use learned_secondary_index.Common.{
  ℕ, suc, ◌+◌, ◌-◌, ◌^◌, ◌≤◌, ◌<◌, ◌≡◌, refl, ap, ◌∙◌, sym, ltb, ◌==◌, min, ◌⊎◌, inl, inr, true,
  false, some, List, ◌++◌, length, get_or, get_elem?, arith, ℕ_discrete, dec_lt,
}
use learned_secondary_index.Common.Run.{done}
use learned_secondary_index.Common.Arrays.{at}
use learned_secondary_index.Common.ArrayLaws.{at-get_or}
use learned_secondary_index.Competitors.Art.Node.{get_leaf_value, max_prefix_length, Node, header}
use learned_secondary_index.Competitors.Art.Heap.{Nodes, load, swap_bytes, load_key}
use learned_secondary_index.Competitors.Art.Iterator.{IteratorEntry, next}
use learned_secondary_index.Competitors.Art.Prefix.{mismatch, prefix_mismatch_within}
use learned_secondary_index.Competitors.Art.Search.{bound_leaf}
use learned_secondary_index.Competitors.Art.Position.{standing}
use learned_secondary_index.Competitors.Art.Steps.{last_index}
use learned_secondary_index.Competitors.Art.Subtree.{byte}
use learned_secondary_index.Competitors.Art.KeyOrder.{
  Agree, less_at, Agree-all, at-key, Compared, compare_bytes_lem,
}

pub at-bytes : (x i : ℕ) → i < 8 → at (swap_bytes x) i ≡ done (byte x i)
at-bytes x i lt = at-get_or (swap_bytes x) i 0 lt

pub Agree-from :
    (d m x k : ℕ)
    → Agree d x k
    → ((i : ℕ) → i < m → byte x (d + i) ≡ byte k (d + i))
    → Agree (d + m) x k
Agree-from d m x k same more i lt = elim (dec_lt i d) [
  | yes before ↦ same i before
  | no behind ↦
      let found = more (i - d) (omega (arith, behind)) in
      let here : d + (i - d) ≡ i = omega (arith, behind) in rw here at found
]

module _ (fuel : ℕ) (nodes : Nodes) (dataset behind : List ℕ) (k : ℕ) (fits : k < 2 ^ 64) where
  abbrev pub key : List ℕ
  key = swap_bytes k ++ behind

  module _ (value n : ℕ) (stack : List IteratorEntry) where
    pub bound_leaf_lem :
        (p d x : ℕ)
        → d ≤ 8
        → x < 2 ^ 64
        → get_elem? dataset (get_leaf_value p) ≡ some x
        → Agree d x k
        → ((k ≤ x)
            × (bound_leaf fuel nodes dataset key 8 true p d (standing value (suc n) stack)
                ≡ done (true, standing value (suc n) stack)))
          ⊎ ((x < k)
              × (bound_leaf fuel nodes dataset key 8 true p d (standing value (suc n) stack)
                  ≡ next fuel nodes (standing value n stack)))
    unfolding bound_leaf load_key
    bound_leaf_lem p d x le fits' here same = elim (ℕ_discrete d 8) [
      | yes whole ↦
          let equal : x ≡ k = Agree-all x k fits' fits (λ i lt. same i (omega (arith, whole))) in
          let test : (d == 8) ≡ true = ground arith in inl (omega arith, rw test refl)
      | no part ↦
          let test : (d == 8) ≡ false = ground arith in
          elim (compare_bytes_lem (8 - d) (swap_bytes x) d (λ i. byte x (d + i)) key d
            (λ i. byte k (d + i)) (λ i lt. at-bytes x (d + i) (omega arith))
            (λ i lt. at-key k (d + i) behind (omega arith))) [
              | inl (run, all) ↦
                  let whole = Agree-from d (8 - d) x k same all in
                  let equal : x ≡ k = Agree-all x k fits' fits (λ i lt. whole i (omega arith)) in
                  let end : (8 - d == 8 - d) ≡ true = ground arith in
                  inl (omega arith, rw (test, here, run, end) refl)
              | inr (i, run, lt, differ, before) ↦
                  let first = Agree-from d i x k same before in
                  let part_way : (i == 8 - d) ≡ false = ground arith in
                  let read = at-bytes x (d + i) (omega arith) in
                  let read' = at-key k (d + i) behind (omega arith) in
                  elim (dec_lt (byte x (d + i)) (byte k (d + i))) [
                    | yes less ↦
                        let byte_less : ltb (byte x (d + i)) (byte k (d + i)) ≡ true =
                          ground arith in
                        inr (
                          less_at (d + i) x k fits' fits (omega arith) first less,
                          rw (test, here, run, part_way, read, read', byte_less, last_index n) refl,
                        )
                    | no more ↦
                        let byte_less : ltb (byte x (d + i)) (byte k (d + i)) ≡ false =
                          ground (arith, more) in
                        let above : k < x =
                          less_at (d + i) k x fits fits' (omega arith) (λ j le. sym (first j le))
                            (omega (arith, more, differ)) in
                        inl
                          (omega arith, rw (test, here, run, part_way, read, read', byte_less) refl)
                  ]
            ]
    ]

  -- the compressed path of a node against the key
  pub prefix_lem :
      (p depth : ℕ) (node : Node)
      → load nodes p ≡ done node
      → length (header node).prefix ≡ max_prefix_length
      → depth + (header node).prefix_length < 8
      → Compared
          (prefix_mismatch_within fuel nodes dataset p key depth 8)
          (header node).prefix_length
          (λ i. byte k (depth + i))
          (λ i. get_or (header node).prefix i 0)
  unfolding prefix_mismatch_within mismatch
  prefix_lem p depth node there size within =
      let bytes : min (8 - depth) (header node).prefix_length ≡ (header node).prefix_length =
        omega arith in
      let short : ltb 17 (header node).prefix_length ≡ false = ground arith in
      rw (there, bytes, short)
        (compare_bytes_lem (header node).prefix_length key depth (λ i. byte k (depth + i))
          (header node).prefix 0 (λ i. get_or (header node).prefix i 0)
          (λ i lt. at-key k (depth + i) behind (omega arith))
          (λ i lt.
            ap (at (header node).prefix) (omega arith)
            ∙ at-get_or (header node).prefix i 0 (omega arith)))
