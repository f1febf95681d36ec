-- ===== src/Lsi/Occurrences.antt =====
-- Advancing a PermIter (include/lsi.hpp) over the occurrences of a key.
use learned_secondary_index.Common.{
  ℕ, ◌+◌, ◌-◌, ◌≤◌, ◌<◌, ◌≡◌, refl, ap, ◌∙◌, some, List, length, get_elem?, dec_lt, arith,
}
use learned_secondary_index.Common.Word.{add64_exact}
use learned_secondary_index.Common.Run.{done}
use learned_secondary_index.Lsi.Index.{Index}
use learned_secondary_index.Lsi.PermIter
use learned_secondary_index.Lsi.PermIter.{PermIter}
use learned_secondary_index.Lsi.View.{IsLowerBound}
use learned_secondary_index.Lsi.Fit.{
  keys_at, perm_at, IsFitted, sorted_lem, length-sorted_pairs, sorted-in_base,
}
use learned_secondary_index.Lsi.Order.{sorted_complete}
use learned_secondary_index.Config.{Config}
use mathlib.Core.Logic.{∥∥₁_map}
use learned_secondary_index.Lsi.Correct.{quarter}

module _ (c : Config) (base : List ℕ) (index : Index c) (fitted : IsFitted c base index) where
  pub deref_lem :
      (l : ℕ)
      → l < length base
      → PermIter.deref c (record { index = l; perm_vector = index.perm_vector })
        ≡ done (perm_at c base l)
  unfolding PermIter.deref
  deref_lem l h = rw (fitted.represents.entry l (omega (arith, fitted.size_lem))) refl

  deref-plus :
      (l j : ℕ)
      → length base < quarter
      → l + j < length base
      → PermIter.deref c (PermIter.plus c (record { index = l; perm_vector = index.perm_vector }) j)
        ≡ done (perm_at c base (l + j))
  unfolding PermIter.deref PermIter.plus
  deref-plus l j small h =
      rw
        (
          add64_exact l j (omega arith),
          fitted.represents.entry (l + j) (omega (arith, fitted.size_lem)),
        )
        refl

  -- between the boundary of a key and a later position of it stand positions of the key alone
  key_between :
      (i l j key : ℕ)
      → IsLowerBound (keys_at c base) (length base) key l
      → i < length base
      → l ≤ i
      → j ≤ i - l
      → keys_at c base i ≡ key
      → keys_at c base (l + j) ≡ key
  key_between i l j key lb h from le k = omega (
    arith,
    lb.2 (l + j) (omega arith) (omega arith),
    sorted_lem c base (l + j) i (omega arith) (omega (arith, length-sorted_pairs c base)),
  )

  -- In a fitted index over fewer than 2 ^ 62 keys, every occurrence of a key in the range is
  -- reached by advancing the iterator at the first position of the key, past occurrences of that
  -- key alone.
  pub occurrences-reached :
      (d key l : ℕ)
      → get_elem? base d ≡ some key
      → IsLowerBound (keys_at c base) (length base) key l
      → length base < quarter
      → ∥ (
          (n : ℕ) × (PermIter.deref c
              (PermIter.plus c (record { index = l; perm_vector = index.perm_vector }) n)
            ≡ done d)
          × ((j : ℕ)
              → j ≤ n
              → (d' : ℕ) × (PermIter.deref c
                    (PermIter.plus c (record { index = l; perm_vector = index.perm_vector }) j)
                  ≡ done d')
                × (get_elem? base d' ≡ some key))) ∥₁
  occurrences-reached d key l e lb small = ∥∥₁_map (sorted_complete c base d e) λ (i, h, p, k).
      let from : l ≤ i = elim (dec_lt i l) [
        | yes less ↦ absurd (omega (arith, lb.1 i less))
        | no le ↦ omega arith
      ] in
      (
        i - l,
        deref-plus l (i - l) small (omega arith) ∙ ap done (ap (perm_at c base) (omega arith) ∙ p),
        λ j le. (
          perm_at c base (l + j),
          deref-plus l j small (omega arith),
          sorted-in_base c base (l + j) (omega arith)
              ∙ ap some (key_between i l j key lb h from le k),
        ),
      )
