-- ===== src/Support/Bits.antt =====
-- The bit loops of include/util/support.hpp.
use learned_secondary_index.Common.{
  ℕ, zero, suc, ◌+◌, ◌-◌, ◌*◌, ◌/◌, ◌%◌, ◌^◌, ◌≤◌, ◌<◌, ◌≡◌, ◌≢◌, refl, ◌==◌, Bool-cases, inl, inr,
  true, false, dec_lt, arith,
}
use learned_secondary_index.Common.Run.{done, out_of_fuel}
use learned_secondary_index.Support.{bit, ctz_default, ctz, ffs, clz_loop, clz}
use native.Mathlib.Nat.{pow-suc}

-- The loop that `ffs` and `ctz` run for types of 8 and 16 bits does not end by its test, for any
-- value and however many rounds it is given.
pub ctz_default-diverges : (fuel x i : ℕ) → ctz_default fuel x i ≡ out_of_fuel
unfolding ctz_default
ctz_default-diverges zero x i = refl
ctz_default-diverges (suc fuel) x i = ground (arith, ctz_default-diverges fuel x (i + 1))

-- For a type whose size is neither 4 nor 8 bytes, neither `ctz` nor `ffs` ends by the test of its
-- loop, for any value and however many rounds it is given.
pub ctz-diverges :
    (builtin_32 builtin_64 : ℕ → ℕ) (fuel size x : ℕ)
    → size ≢ 4
    → size ≢ 8
    → (ctz builtin_32 builtin_64 fuel size x ≡ out_of_fuel)
      × (ffs builtin_64 builtin_32 fuel size x ≡ out_of_fuel)
unfolding ctz ffs
ctz-diverges builtin_32 builtin_64 fuel size x four eight =
    let not_4 : (size == 4) ≡ false = ground (arith, four) in
    let not_8 : (size == 8) ≡ false = ground (arith, eight) in
    rw (not_4, not_8, ctz_default-diverges fuel x 0) (refl, refl)

le_of_bit : (x p : ℕ) → (x / p % 2 == 0) ≡ false → p ≤ x
le_of_bit x p e = elim (dec_lt x p) [
  | no h ↦ omega arith
  | yes h ↦ let z : x / p ≡ 0 = grind arith in absurd (ground arith)
]

lt_of_bit : (x p : ℕ) → x < p * 2 → (x / p % 2 == 0) ≡ true → x < p
lt_of_bit x p lt e = elim (dec_lt x p) [
  | yes h ↦ h
  | no h ↦ let z : x / p ≡ 1 = grind arith in absurd (ground arith)
]

-- `z` leading zeros: the bit behind them is set, and nothing above it is.
abbrev pub HasLeadingZeros : (width x z : ℕ) → Type 0
HasLeadingZeros width x z = (z < width) × (2 ^ (width - z - 1) ≤ x) × (x < 2 ^ (width - z))

clz_loop_lem :
    (width fuel x i : ℕ)
    → i + fuel ≡ width
    → x ≢ 0
    → x < 2 ^ fuel
    → (z : ℕ) × (clz_loop width fuel x i ≡ done z) × HasLeadingZeros width x z
unfolding clz_loop
clz_loop_lem width zero x i e pos lt = absurd (pos (omega arith))
clz_loop_lem width (suc fuel) x i e pos lt =
    let here : width - i - 1 ≡ fuel = omega arith in
    let above : width - i ≡ suc fuel = omega arith in
    elim (Bool-cases (bit x (width - i - 1) == 0)) [
      | inl clear ↦ rw clear (
          clz_loop_lem width fuel x (i + 1) (omega arith) pos
            (lt_of_bit x (2 ^ fuel) (rw pow-suc at lt) (rw here at clear)))
      | inr set ↦
          (i, rw set, (omega arith, rw here (le_of_bit x (2 ^ fuel) (rw here at set)), rw above lt))
    ]

-- For a type whose size is neither 4 nor 8 bytes, and for a value that is not zero and fits the
-- type, `clz` returns the number of zero bits above the highest bit that is set.
pub clz-HasLeadingZeros :
    (builtin_32 builtin_64 : ℕ → ℕ) (size x : ℕ)
    → size ≢ 4
    → size ≢ 8
    → x ≢ 0
    → x < 2 ^ (size * 8)
    → (z : ℕ) × (clz builtin_32 builtin_64 size x ≡ done z) × HasLeadingZeros (size * 8) x z
unfolding clz
clz-HasLeadingZeros builtin_32 builtin_64 size x four eight pos lt =
    let (z, found, h) = clz_loop_lem (size * 8) (size * 8) x 0 (omega arith) pos lt in
    let not_4 : (size == 4) ≡ false = ground (arith, four) in
    let not_8 : (size == 8) ≡ false = ground (arith, eight) in
    let nonzero : (x == 0) ≡ false = ground arith in (z, rw (nonzero, not_4, not_8) found, h)
