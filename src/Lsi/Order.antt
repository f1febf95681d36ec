-- ===== src/Lsi/Order.antt =====
-- Boundaries in the sorted keys of a fitted index, and the occurrences of a key.
use learned_secondary_index.Common.{
  ℕ, zero, suc, ◌≤◌, ◌<◌, ◌≡◌, ap, ◌∙◌, some, List, length, get_elem?, dec_lt, arith,
}
use learned_secondary_index.Common.Sorting.{
  pair_at, enumerate, length-enumerate, get_or-enumerate, mem-get_or, index_of_mem, get_elem?-lt,
}
use learned_secondary_index.Lsi.Index.{sorted_pairs}
use learned_secondary_index.Lsi.Fit.{keys_at, perm_at, length-sorted_pairs, sorted_lem}
use learned_secondary_index.Lsi.View.{IsLowerBound}
use learned_secondary_index.Config.{Config}
use Prim.Native.Nat.add
use mathlib.Core.List.{Mem}
use mathlib.Core.List.Perm
use mathlib.Core.Logic.{∥∥₁_map, ∥∥₁_elim}
use native.Mathlib.Nat.{ℕ_set}
use native.Mathlib.Bridge.{le_prop}
use mathlib.Core.HLevel.{×_prop}

module _ (keys : ℕ → ℕ) (key : ℕ) where
  -- every key has a boundary in sorted keys
  pub lower_bound_of :
      (n : ℕ) → ((i j : ℕ) → i ≤ j → j < n → keys i ≤ keys j) → (l : ℕ) × IsLowerBound keys n key l
  lower_bound_of zero sorted =
      (0, (omega arith, λ i h. absurd (omega arith), λ i p q. absurd (omega arith)))
  lower_bound_of (suc n) sorted =
      let (l, lb) = lower_bound_of n (λ i j p q. sorted i j p (omega arith)) in
      elim (dec_lt (keys n) key) [
        | yes small ↦ (
          suc n,
          (
            omega arith,
            λ i h. omega (arith, sorted i n (omega arith) (omega arith)),
            λ i p q. absurd (omega arith),
          ),
        )
        | no large ↦ (l, (omega arith, lb.1, λ i p q. above_suc n l lb.2 (omega arith) i p q))
      ]
    where
      above_suc :
          (n l : ℕ)
          → ((i : ℕ) → l ≤ i → i < n → key ≤ keys i)
          → key ≤ keys n
          → (i : ℕ) → l ≤ i
          → i < suc n
          → key ≤ keys i
      above_suc n l above last i p q = elim (dec_lt i n) [
        | yes h ↦ above i p h
        | no h ↦ let e : i ≡ n = omega arith in rw e last
      ]

module _ (c : Config) (base : List ℕ) where
  -- every displacement of the range stands at a position of the sorted vector
  pub sorted_complete :
      (d : ℕ) {key : ℕ}
      → get_elem? base d ≡ some key
      → ∥ ((i : ℕ) × (i < length base) × (perm_at c base i ≡ d) × (keys_at c base i ≡ key)) ∥₁
  unfolding sorted_pairs
  sorted_complete d {key} e =
      ∥∥₁_map
        (index_of_mem (sorted_pairs c base) (0, 0)
          ((Perm.mem_iff (c.std_sort.sort-perm (enumerate 0 base))).1 member))
        λ (i, h, same). (
          i,
          omega (arith, length-sorted_pairs c base),
          ap (λ p. p.1) (same ∙ pair),
          ap (λ p. p.0) (same ∙ pair),
        )
    where
      pair : pair_at (enumerate 0 base) d ≡ (key, d)
      pair = rw add.zero at (get_or-enumerate 0 d base key e)

      member : Mem (pair_at (enumerate 0 base) d) (enumerate 0 base)
      member =
          mem-get_or (enumerate 0 base) d (0, 0)
            (omega (arith, length-enumerate 0 base, get_elem?-lt base d e))

  -- a key of the range stands at its boundary
  pub key-at_boundary :
      (d : ℕ) {key l : ℕ}
      → get_elem? base d ≡ some key
      → IsLowerBound (keys_at c base) (length base) key l
      → (l < length base) × (keys_at c base l ≡ key)
  key-at_boundary d {key} {l} e lb =
      ∥∥₁_elim (sorted_complete d e) (×_prop le_prop (ℕ_set _ _)) λ (i, h, p, k).
        let before : l ≤ i = elim (dec_lt i l) [
          | yes less ↦ absurd (omega (arith, lb.1 i less))
          | no le ↦ omega arith
        ] in
        let order = sorted_lem c base l i before (omega (arith, length-sorted_pairs c base)) in
        (omega arith, omega (arith, lb.2 l))
