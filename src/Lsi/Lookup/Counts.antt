-- ===== src/Lsi/Lookup/Counts.antt =====
-- How often the loops of `lookup` (include/lsi.hpp) count a read of the base data.
use learned_secondary_index.Common.{
  leb, Bool, ℕ, zero, suc, ◌+◌, ◌-◌, ◌*◌, ◌/◌, ◌^◌, ◌≤◌, ◌<◌, ◌≡◌, ltb, Bool-cases, inl, inr, false,
  List, get_elem?, arith,
}
use learned_secondary_index.Common.Word.{add64, midpoint, midpoint_exact, add64_exact}
use learned_secondary_index.Common.Run.{read, Run, done, out_of_bounds, out_of_fuel, ◌>>=◌}
use native.Mathlib.Nat.{pow-suc}
use learned_secondary_index.PermVector.{PermVector}
use learned_secondary_index.Lsi.PermIter
use learned_secondary_index.Lsi.PermIter.{PermIter}
use learned_secondary_index.Lsi.Lookup.{
  Counters, incr_base_accesses, incr_false_positives, linear_search, passes_over, iter_at,
  binary_search, read_base,
}
use learned_secondary_index.Config.{Config}

-- the reads of base data that are counted when a search returns
abbrev pub counted : Run (ℕ × Counters) → ℕ
counted (done (found, n)) = n.base_data
counted out_of_bounds = 0
counted out_of_fuel = 0

counted-bind :
    {A : Type 0} (m : Run A) (f : A → Run (ℕ × Counters)) (b : ℕ)
    → ((x : A) → counted (f x) ≤ b)
    → counted (m >>= f) ≤ b
counted-bind (done x) f b h = h x
counted-bind out_of_bounds f b h = omega arith
counted-bind out_of_fuel f b h = omega arith

module _ (c : Config) (v : PermVector c.packing) (base : List ℕ) (key : ℕ) where
  -- each round halves the interval
  pub binary_search-counted :
      (fuel start stop k : ℕ) (n : Counters)
      → stop < 2 ^ 63
      → stop - start < 2 ^ k
      → n.base_data + k < 2 ^ 64
      → counted (binary_search c v base key fuel start stop n) ≤ n.base_data + k
  unfolding binary_search
  binary_search-counted zero start stop k n fits small room = omega arith
  binary_search-counted (suc fuel) start stop zero n fits small room =
      let stopped : ltb start stop ≡ false = ground arith in rw stopped (omega arith)
  binary_search-counted (suc fuel) start stop (suc k) n fits small room =
      elim (Bool-cases (ltb start stop)) [
        | inr stopped ↦ rw stopped (omega arith)
        | inl goes_on ↦
            let less : start < stop = ground arith in
            let mid : midpoint start stop ≡ start + (stop - start) / 2 =
              midpoint_exact start stop (omega arith) (omega arith) in
            let up : add64 (midpoint start stop) 1 ≡ midpoint start stop + 1 =
              add64_exact (midpoint start stop) 1 (omega arith) in
            let more : (incr_base_accesses n).base_data ≡ n.base_data + 1 =
              add64_exact n.base_data 1 (omega arith) in
            let double : 2 ^ suc k ≡ 2 ^ k * 2 = pow-suc 2 k in
            rw goes_on (
              counted-bind (read_base c v base key (midpoint start stop)) _ (n.base_data + suc k)
                (λ probed. elim (Bool-cases (ltb probed key)) [
                  | inl smaller ↦
                      let rest =
                        binary_search-counted fuel (add64 (midpoint start stop) 1) stop k
                          (incr_base_accesses n) fits (omega arith) (omega arith) in
                      rw smaller (omega arith)
                  | inr other ↦
                      let rest =
                        binary_search-counted fuel start (midpoint start stop) k
                          (incr_base_accesses n) (omega arith) (omega arith) (omega arith) in
                      rw other (omega arith)
                ]))
      ]

  -- each round reads the base data at most once
  pub linear_search-counted :
      (lowerbound : Bool) (fuel ind stop : ℕ) (n : Counters)
      → stop < 2 ^ 63
      → n.base_data + (stop - ind) < 2 ^ 64
      → counted (linear_search c v base key lowerbound fuel ind stop n) ≤ n.base_data + (stop - ind)
  unfolding linear_search PermIter.before
  linear_search-counted lowerbound zero ind stop n fits room = omega arith
  linear_search-counted lowerbound (suc fuel) ind stop n fits room =
      elim (Bool-cases (ltb ind stop)) [
        | inr stopped ↦ rw stopped (omega arith)
        | inl goes_on ↦
            let less : ind < stop = ground arith in
            let up : add64 ind 1 ≡ ind + 1 = add64_exact ind 1 (omega arith) in
            let more : (incr_base_accesses n).base_data ≡ n.base_data + 1 =
              add64_exact n.base_data 1 (omega arith) in
            let passed =
              linear_search-counted lowerbound fuel (add64 ind 1) stop n fits (omega arith) in
            let missed =
              linear_search-counted lowerbound fuel (add64 ind 1) stop
                (incr_false_positives (incr_base_accesses n)) fits (omega arith) in
            rw goes_on (
              counted-bind (PermIter.value c (iter_at c v base key ind)) _
                (n.base_data + (stop - ind))
                λ value. elim (Bool-cases (passes_over c v base key lowerbound value)) [
                  | inl passes ↦ rw passes (omega arith)
                  | inr looks ↦ rw looks (
                      counted-bind (read (get_elem? base value.index)) _
                        (n.base_data + (stop - ind))
                        λ k. elim (Bool-cases (leb key k)) [
                          | inl hit ↦ rw hit (omega arith)
                          | inr miss ↦ rw miss (omega arith)
                        ])
                ])
      ]
