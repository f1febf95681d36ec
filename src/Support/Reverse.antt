-- ===== src/Support/Reverse.antt =====
-- The loop of `bitreverse` (include/util/support.hpp).
use learned_secondary_index.Common.{
  ℕ, zero, suc, ◌+◌, ◌-◌, ◌*◌, ◌/◌, ◌%◌, ◌^◌, ◌≤◌, ◌<◌, ◌≡◌, ap, ◌∙◌, sym, arith,
}
use learned_secondary_index.Support.{bit, bitreverse_loop, bitreverse}
use native.Mathlib.Nat.{pow-suc, pow-le-pow_right, mod-eq_of_lt, div-div-eq-div-mul, mul_comm}

bit-suc : (r b i : ℕ) → b < 2 → bit (r * 2 + b) (suc i) ≡ bit r i
bit-suc r b i lt =
    let double : 2 ^ suc i ≡ 2 * 2 ^ i = pow-suc 2 i ∙ mul_comm (2 ^ i) 2 in
    let halved : (r * 2 + b) / 2 ≡ r = omega arith in
    ap (λ q. q % 2)
      (ap (λ p. (r * 2 + b) / p) double
        ∙ sym (div-div-eq-div-mul (r * 2 + b) 2 (2 ^ i))
        ∙ ap (λ q. q / 2 ^ i) halved)

bit_zero : (r b : ℕ) → b < 2 → bit (r * 2 + b) 0 ≡ b
bit_zero r b lt = omega arith

-- after `i` rounds, the lowest `i` bits of `r_elem` are those of `x`, the other way round
bitreverse_loop-bit :
    (width rounds x i r_elem : ℕ)
    → i + rounds ≡ width
    → r_elem < 2 ^ i
    → ((t : ℕ) → t < i → bit r_elem t ≡ bit x (i - t - 1))
    → (t : ℕ) → t < width
    → bit (bitreverse_loop width rounds x i r_elem) t ≡ bit x (width - t - 1)
unfolding bitreverse_loop
bitreverse_loop-bit width zero x i r_elem e small bits t lt =
    bits t (omega arith) ∙ ap (bit x) (omega arith)
bitreverse_loop-bit width (suc rounds) x i r_elem e small bits t lt =
    let double : 2 ^ suc i ≡ 2 ^ i * 2 = pow-suc 2 i in
    let fits : 2 ^ suc i ≤ 2 ^ width = pow-le-pow_right (omega arith) (omega arith) in
    let kept : r_elem * 2 % 2 ^ width ≡ r_elem * 2 = mod-eq_of_lt (omega arith) in
    let up : i + 1 ≡ suc i = omega arith in
    rw (kept, up)
      (bitreverse_loop-bit width rounds x (suc i) (r_elem * 2 + bit x i) (omega arith) (omega arith)
        next t lt)
  where
    next : (t : ℕ) → t < suc i → bit (r_elem * 2 + bit x i) t ≡ bit x (suc i - t - 1)
    next zero lt = bit_zero r_elem (bit x i) (omega arith) ∙ ap (bit x) (omega arith)
    next (suc t) lt =
        bit-suc r_elem (bit x i) t (omega arith) ∙ (bits t (omega arith) ∙ ap (bit x) (omega arith))

-- For a type of any width, each bit of the result of `bitreverse` is the bit of the argument that
-- is as far from the other end.
pub bitreverse-bit :
    (width x t : ℕ) → t < width → bit (bitreverse width x) t ≡ bit x (width - t - 1)
unfolding bitreverse
bitreverse-bit width x t lt =
    bitreverse_loop-bit width width x 0 0 (omega arith) (omega arith) (λ t lt. absurd (omega arith))
      t lt
