-- ===== src/Instances/Sort.antt =====
-- A sort by key that meets what the model asks of `std::sort`.
use learned_secondary_index.Common.{
  ℕ, zero, suc, ◌≤◌, ◌<◌, leb, if◌then◌else◌, Bool-cases, inl, inr, List, [], ◌∷◌, length, arith,
}
use learned_secondary_index.Common.Sorting.{Pair, key_at, IsSortedByKey}
use learned_secondary_index.Config.{StdSort}
use mathlib.Core.List.{Perm}
use mathlib.Core.List.Perm

unfoldable pub insert : Pair → List Pair → List Pair
insert p [] = p ∷ []
insert p (q ∷ l) = if leb p.0 q.0 then p ∷ q ∷ l else q ∷ insert p l

unfoldable pub sort : List Pair → List Pair
unfolding insert
sort [] = []
sort (p ∷ l) = insert p (sort l)

pub insert-perm : (p : Pair) (l : List Pair) → Perm (insert p l) (p ∷ l)
unfolding insert
insert-perm p [] = Perm.rfl
insert-perm p (q ∷ l) = elim (Bool-cases (leb p.0 q.0)) [
  | inl e ↦ rw e Perm.rfl
  | inr e ↦ rw e (Perm.trans (Perm.cons q (insert-perm p l)) (Perm.swap p q l))
]

pub sort-perm : (l : List Pair) → Perm (sort l) l
unfolding sort
sort-perm [] = Perm.rfl
sort-perm (p ∷ l) = Perm.trans (insert-perm p (sort l)) (Perm.cons p (sort-perm l))

-- every key is at least `k`
abbrev AllGe : ℕ → List Pair → Type 0
AllGe k l = (i : ℕ) → i < length l → k ≤ key_at l i

cons_ge : (k : ℕ) (p : Pair) (l : List Pair) → k ≤ p.0 → AllGe k l → AllGe k (p ∷ l)
cons_ge k p l le all zero h = le
cons_ge k p l le all (suc i) h = all i (omega arith)

insert-AllGe : (k : ℕ) (p : Pair) (l : List Pair) → k ≤ p.0 → AllGe k l → AllGe k (insert p l)
unfolding insert
insert-AllGe k p [] le all = cons_ge k p [] le all
insert-AllGe k p (q ∷ l) le all = elim (Bool-cases (leb p.0 q.0)) [
  | inl e ↦ rw e (cons_ge k p (q ∷ l) le all)
  | inr e ↦ rw e (
      cons_ge k q (insert p l) (all 0 (omega arith))
        (insert-AllGe k p l le (λ i h. all (suc i) (omega arith))))
]

cons-sorted : (p : Pair) (l : List Pair) → AllGe p.0 l → IsSortedByKey l → IsSortedByKey (p ∷ l)
cons-sorted p l all s zero zero q h = omega arith
cons-sorted p l all s zero (suc j) q h = all j (omega arith)
cons-sorted p l all s (suc i) zero q h = absurd (omega arith)
cons-sorted p l all s (suc i) (suc j) q h = s i j (omega arith) (omega arith)

pub tail-sorted : (p : Pair) (l : List Pair) → IsSortedByKey (p ∷ l) → IsSortedByKey l
tail-sorted p l s i j q h = s (suc i) (suc j) (omega arith) (omega arith)

pub insert-sorted : (p : Pair) (l : List Pair) → IsSortedByKey l → IsSortedByKey (insert p l)
unfolding insert
insert-sorted p [] s = cons-sorted p [] (λ i h. absurd (omega arith)) s
insert-sorted p (q ∷ l) s = elim (Bool-cases (leb p.0 q.0)) [
  | inl e ↦ rw e (cons-sorted p (q ∷ l) (λ i h. ground (arith, s 0 i (omega arith) h)) s)
  | inr e ↦ rw e (
      cons-sorted q (insert p l)
        (insert-AllGe q.0 p l (ground arith) (λ i h. s 0 (suc i) (omega arith) (omega arith)))
        (insert-sorted p l (tail-sorted q l s)))
]

pub sort-IsSorted : (l : List Pair) → IsSortedByKey (sort l)
unfolding sort
sort-IsSorted [] = λ i j q h. absurd (omega arith)
sort-IsSorted (p ∷ l) = insert-sorted p (sort l) (sort-IsSorted l)

abbrev pub insertion_sort : StdSort
unfolding sort
insertion_sort = record { sort = sort; sort-perm = sort-perm; sort-IsSorted = sort-IsSorted }
