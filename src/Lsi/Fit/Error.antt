-- ===== src/Lsi/Fit/Error.antt =====
-- The loop of `fit` (include/lsi.hpp) that determines `max_error`.
use learned_secondary_index.Common.{
  ℕ, zero, suc, ◌+◌, ◌≤◌, ◌<◌, ◌≡◌, ap, List, length, max, ◌==◌, if◌then◌else◌, inl, inr, dec_lt,
  ==_iff, Bool-cases, arith,
}
use learned_secondary_index.Common.Sorting.{Pair, key_at, IsSortedByKey}
use learned_secondary_index.Lsi.Index.{error_loop, error_at}

module _ (predict : ℕ → ℕ) (cells : List Pair) where
  -- position `l` holds the first occurrence of its key
  abbrev pub IsFirst : ℕ → Type 0
  IsFirst l = (i : ℕ) → i < l → key_at cells i < key_at cells l

  -- the error of the prediction for the key at position `l`
  abbrev pub error_of : ℕ → ℕ
  error_of l = error_at predict cells (key_at cells l) l

  error_loop-ge : (rounds j lower_bound e : ℕ) → e ≤ error_loop predict cells rounds j lower_bound e
  unfolding error_loop
  error_loop-ge zero j lower_bound e = omega arith
  error_loop-ge (suc rounds) j lower_bound e =
      let next = if key_at cells lower_bound == key_at cells j then lower_bound else j in
      omega (
        arith,
        error_loop-ge rounds (j + 1) next (max e (error_at predict cells (key_at cells j) next)),
      )

  -- after round `j` the errors of the first occurrences up to `j` are taken in
  took_in :
      (j lower_bound e l : ℕ)
      → lower_bound ≤ j
      → IsFirst l
      → (l < j → error_of l ≤ e)
      → (lower_bound < j → key_at cells lower_bound ≡ key_at cells j)
      → l < j + 1
      → error_of l ≤ max e (error_at predict cells (key_at cells j) lower_bound)
  took_in j lower_bound e l le first seen same lt = elim (dec_lt l j) [
    | yes h ↦ omega (arith, seen h)
    | no h ↦
        let here : j ≡ l = omega arith in
        let there : lower_bound ≡ l = elim (dec_lt lower_bound j) [
          | yes p ↦
              absurd
                (omega (arith, first lower_bound (omega arith), same p, ap (key_at cells) here))
          | no p ↦ omega arith
        ] in
        let e' : error_at predict cells (key_at cells j) lower_bound ≡ error_of l =
          λ i. error_at predict cells (key_at cells (here i)) (there i) in
        omega (arith, e')
  ]

  up_to :
      (j lower_bound : ℕ)
      → ((i : ℕ) → i < j → key_at cells i ≤ key_at cells lower_bound)
      → key_at cells j ≤ key_at cells lower_bound
      → (i : ℕ) → i < j + 1
      → key_at cells i ≤ key_at cells lower_bound
  up_to j lower_bound before at_j i h = elim (dec_lt i j) [
    | yes p ↦ before i p
    | no p ↦ let e : i ≡ j = omega arith in rw e at_j
  ]

  -- from round `j` on, the loop takes in the error of every first occurrence that is left
  pub error_loop_bound :
      (rounds j lower_bound e l : ℕ)
      → lower_bound ≤ j
      → l < j + rounds
      → IsFirst l
      → (l < j → error_of l ≤ e)
      → error_of l ≤ error_loop predict cells rounds j lower_bound e
  unfolding error_loop
  error_loop_bound zero j lower_bound e l le lt first seen = seen (omega arith)
  error_loop_bound (suc rounds) j lower_bound e l le lt first seen =
      elim (Bool-cases (key_at cells lower_bound == key_at cells j)) [
        | inl same ↦ rw same (
            error_loop_bound rounds (j + 1) lower_bound _ l (omega arith) (omega arith) first
              (took_in j lower_bound e l le first seen (λ _. (==_iff _ _).0 same)))
        | inr other ↦ rw other (
            error_loop_bound rounds (j + 1) j _ l (omega arith) (omega arith) first
              (took_in j j e l (omega arith) first seen (λ h. absurd (omega arith))))
      ]

  -- The errors at the first occurrences, in terms of a bound `most` on them all.
  module _ (most : ℕ) (sorted : IsSortedByKey cells)
      (bound : (l : ℕ) → l < length cells → IsFirst l → error_of l ≤ most) where
    -- the loop's own `current_lower_bound` is always a first occurrence
    pub error_loop-le :
        (rounds j lower_bound e : ℕ)
        → j + rounds ≡ length cells
        → lower_bound ≤ j
        → IsFirst lower_bound
        → ((i : ℕ) → i < j → key_at cells i ≤ key_at cells lower_bound)
        → e ≤ most
        → error_loop predict cells rounds j lower_bound e ≤ most
    unfolding error_loop
    error_loop-le zero j lower_bound e end le first before small = small
    error_loop-le (suc rounds) j lower_bound e end le first before small =
        elim (Bool-cases (key_at cells lower_bound == key_at cells j)) [
          | inl same ↦
              let k = (==_iff (key_at cells lower_bound) (key_at cells j)).0 same in
              let here : error_at predict cells (key_at cells j) lower_bound ≤ most =
                rw (← k) (bound lower_bound (omega arith) first) in
              rw same (
                error_loop-le rounds (j + 1) lower_bound _ (omega arith) (omega arith) first
                  (λ i h. up_to j lower_bound before (omega arith) i h) (omega arith))
          | inr other ↦
              let below : key_at cells lower_bound ≤ key_at cells j =
                sorted lower_bound j le (omega arith) in
              let first_j : IsFirst j = λ i h. ground (arith, before i h) in
              rw other (
                error_loop-le rounds (j + 1) j _ (omega arith) (omega arith) first_j
                  (λ i h. sorted i j (omega arith) (omega arith))
                  (omega (arith, bound j (omega arith) first_j)))
        ]
