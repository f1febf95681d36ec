-- ===== src/Support/LowerBound.antt =====
-- `lower_bound` (include/util/support.hpp) on a sorted range.
use learned_secondary_index.Common.{
  ℕ, zero, suc, ◌+◌, ◌-◌, ◌/◌, ◌≤◌, ◌<◌, ◌≡◌, ap, ltb, Bool-cases, inl, inr, dec_lt, arith,
}
use learned_secondary_index.Common.Word.{word, add64, sub64, add64_exact, sub64_exact}
use learned_secondary_index.Common.Run.{done}
use learned_secondary_index.Support.{lower_bound_loop, lower_bound}

-- `r` splits [first, last) into elements below the value and elements not below it.
abbrev pub Splits : (dataset : ℕ → ℕ) (value first last r : ℕ) → Type 0
Splits dataset value first last r =
    (first ≤ r)
    × (r ≤ last)
    × ((i : ℕ) → first ≤ i → i < r → dataset i < value)
    × ((i : ℕ) → r ≤ i → i < last → value ≤ dataset i)

module _ (dataset : ℕ → ℕ) (value : ℕ) where
  lower_bound_loop_lem :
      (fuel first count : ℕ)
      → count < fuel
      → first + count < word
      → ((i j : ℕ) → first ≤ i → i ≤ j → j < first + count → dataset i ≤ dataset j)
      → (r : ℕ) × (lower_bound_loop dataset value fuel first count ≡ done r)
        × Splits dataset value first (first + count) r
  unfolding lower_bound_loop
  lower_bound_loop_lem zero first count enough small sorted = absurd (omega arith)
  lower_bound_loop_lem (suc fuel) first count enough small sorted =
      elim (Bool-cases (ltb 0 count)) [
        | inr e ↦ (
          first,
          ground arith,
          (omega arith, omega arith, λ i p q. absurd (omega arith), λ i p q. absurd (ground arith)),
        )
        | inl e ↦
            let some_left : 0 < count = ground arith in
            let mid : add64 first (count / 2) ≡ first + count / 2 = add64_exact _ _ (omega arith) in
            let up : add64 (add64 first (count / 2)) 1 ≡ first + count / 2 + 1 =
              rw mid (add64_exact (first + count / 2) 1 (omega arith)) in
            let down : sub64 count (count / 2 + 1) ≡ count - (count / 2 + 1) =
              sub64_exact _ _ (omega arith) (omega arith) in
            elim (Bool-cases (ltb (dataset (first + count / 2)) value)) [
              | inl less ↦
                  let (r, found, s) =
                    lower_bound_loop_lem fuel (add64 (add64 first (count / 2)) 1)
                      (sub64 count (count / 2 + 1)) (omega arith) (omega arith)
                      (λ i j a b c. sorted i j (omega arith) b (omega arith)) in
                  let small_mid : dataset (first + count / 2) < value = ground arith in
                  (
                    r,
                    ground (arith, found, ap dataset mid),
                    (
                      omega (arith, s.0),
                      omega (arith, s.1),
                      λ i a b. elim (dec_lt (first + count / 2) i) [
                        | yes right ↦ s.2 i (omega arith) b
                        | no left ↦
                            omega
                              (arith, sorted i (first + count / 2) a (omega arith) (omega arith))
                      ],
                      λ i a b. s.3 i a (omega arith),
                    ),
                  )
              | inr not_less ↦
                  let (r, found, s) =
                    lower_bound_loop_lem fuel first (count / 2) (omega arith) (omega arith)
                      (λ i j a b c. sorted i j a b (omega arith)) in
                  let large_mid : value ≤ dataset (first + count / 2) = ground arith in
                  (
                    r,
                    ground (arith, found, ap dataset mid),
                    (
                      s.0,
                      omega (arith, s.1),
                      s.2,
                      λ i a b. elim (dec_lt i (first + count / 2)) [
                        | yes left ↦ s.3 i a left
                        | no right ↦
                            omega
                              (arith, sorted (first + count / 2) i (omega arith) (omega arith) b)
                      ],
                    ),
                  )
            ]
      ]

  -- On a range of positions that is sorted and ends below 2 ^ 64, `lower_bound` returns the
  -- position that splits it into elements below the value and elements not below it.
  pub lower_bound-Splits :
      (first last : ℕ)
      → first ≤ last
      → last < word
      → ((i j : ℕ) → first ≤ i → i ≤ j → j < last → dataset i ≤ dataset j)
      → (r : ℕ) × (lower_bound dataset value first last ≡ done r)
        × Splits dataset value first last r
  unfolding lower_bound
  lower_bound-Splits first last le small sorted =
      let count : sub64 last first ≡ last - first = sub64_exact last first le small in
      let (r, found, s) =
        lower_bound_loop_lem (suc (sub64 last first)) first (sub64 last first) (omega arith)
          (omega arith) (λ i j a b c. sorted i j a b (omega arith)) in
      (r, found, (s.0, omega (arith, s.1), s.2, λ i a b. s.3 i a (omega arith)))
