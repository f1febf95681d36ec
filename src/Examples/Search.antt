-- ===== src/Examples/Search.antt =====
-- The results about the search loops and iterators, at small inputs.
use learned_secondary_index.Common.{ℕ, ◌*◌, ◌≡◌, arith}
use learned_secondary_index.Common.Run.{done, out_of_fuel}
use learned_secondary_index.Support.{lower_bound, ctz, ffs, clz, bit, bitreverse}
use learned_secondary_index.Support.LowerBound.{Splits, lower_bound-Splits}
use learned_secondary_index.Support.Reverse.{bitreverse-bit}
use learned_secondary_index.Support.Bits.{HasLeadingZeros, clz-HasLeadingZeros, ctz-diverges}

lower_bound-Splits_example :
    (r : ℕ) × (lower_bound (λ i. i * 3) 10 2 9 ≡ done r) × Splits (λ i. i * 3) 10 2 9 r
lower_bound-Splits_example =
    lower_bound-Splits (λ i. i * 3) 10 2 9 (omega arith) (omega arith) (λ i j p q h. omega arith)

clz-HasLeadingZeros_example :
    (z : ℕ) × (clz (λ x. x) (λ x. x) 2 5 ≡ done z) × HasLeadingZeros 16 5 z
clz-HasLeadingZeros_example =
    clz-HasLeadingZeros (λ x. x) (λ x. x) 2 5 (λ e. absurd (omega arith))
      (λ e. absurd (omega arith)) (λ e. absurd (omega arith)) (omega arith)

ctz-diverges_example :
    (ctz (λ x. x) (λ x. x) 40 2 6 ≡ out_of_fuel) × (ffs (λ x. x) (λ x. x) 40 2 6 ≡ out_of_fuel)
ctz-diverges_example =
    ctz-diverges (λ x. x) (λ x. x) 40 2 6 (λ e. absurd (omega arith)) (λ e. absurd (omega arith))

bitreverse-bit_example : bit (bitreverse 8 6) 5 ≡ bit 6 2
bitreverse-bit_example = bitreverse-bit 8 6 5 (omega arith)
