-- ===== src/Support.antt =====
-- include/util/support.hpp: a lower bound search over anything indexed, and bit counting.
pub mod LowerBound
pub mod Bits
pub mod Reverse
use learned_secondary_index.Common.{
  ℕ, zero, suc, ◌+◌, ◌-◌, ◌*◌, ◌/◌, ◌%◌, ◌^◌, ltb, ◌==◌, not, Bool, if◌then◌else◌,
}
use learned_secondary_index.Common.Word.{add64, sub64}
use learned_secondary_index.Common.Run.{Run, done, out_of_fuel}

module _ (dataset : ℕ → ℕ) (value : ℕ) where
  -- `while (count > 0)`; the last `first` is the result
  unfoldable pub lower_bound_loop : (fuel first count : ℕ) → Run ℕ
  lower_bound_loop zero first count = out_of_fuel
  lower_bound_loop (suc fuel) first count =
      let step = count / 2 in
      let i = add64 first step in
      let upper = lower_bound_loop fuel (add64 i 1) (sub64 count (step + 1)) in
      let lower = lower_bound_loop fuel first step in
      let branch = if ltb (dataset i) value then upper else lower in
      if ltb 0 count then branch else done first

  unfoldable pub lower_bound : (first last : ℕ) → Run ℕ
  lower_bound first last = lower_bound_loop (suc (sub64 last first)) first (sub64 last first)

-- bit `i` of `x`: `(x >> i) & 0x1`
abbrev pub bit : ℕ → ℕ → ℕ
bit x i = x / 2 ^ i % 2

-- `~b` for an `int` that is not negative, as the bits of an `int`
abbrev pub complement : ℕ → ℕ
complement b = 2 ^ 32 - 1 - b

-- The `default` of `ffs` and of `ctz`, which 8 and 16 bit types take:
-- `while (~((x >> i) & 0x1)) i++`
unfoldable pub ctz_default : (fuel x i : ℕ) → Run ℕ
ctz_default zero x i = out_of_fuel
ctz_default (suc fuel) x i =
    let more = ctz_default fuel x (i + 1) in if complement (bit x i) == 0 then done i else more

-- `ffs` and `ctz` for a type of `size` bytes, with the builtins of the compiler as parameters
unfoldable pub ffs : (ffsll ffs32 : ℕ → ℕ) (fuel size x : ℕ) → Run ℕ
unfolding ctz_default
ffs ffsll ffs32 fuel size x =
    let loop = ctz_default fuel x 0 in
    if size == 8 then done (ffsll x) else (if size == 4 then done (ffs32 x) else loop)

unfoldable pub ctz : (tzcnt_32 tzcnt_64 : ℕ → ℕ) (fuel size x : ℕ) → Run ℕ
unfolding ctz_default
ctz tzcnt_32 tzcnt_64 fuel size x =
    let loop = ctz_default fuel x 0 in
    if size == 4 then done (tzcnt_32 x) else (if size == 8 then done (tzcnt_64 x) else loop)

-- The `default` of `clz` for a type of `width` bits:
-- `while (((x >> (sizeof(T) * 8 - i - 1)) & 0x1) == 0x0) i++`
unfoldable pub clz_loop : (width fuel x i : ℕ) → Run ℕ
clz_loop width zero x i = out_of_fuel
clz_loop width (suc fuel) x i =
    let more = clz_loop width fuel x (i + 1) in if bit x (width - i - 1) == 0 then more else done i

-- `clz` for a type of `size` bytes, with the builtins of the compiler as parameters
unfoldable pub clz : (clz_32 clz_64 : ℕ → ℕ) (size x : ℕ) → Run ℕ
unfolding clz_loop
clz clz_32 clz_64 size x =
    let loop = clz_loop (size * 8) (size * 8) x 0 in
    let by_size =
      if size == 4 then done (clz_32 x) else (if size == 8 then done (clz_64 x) else loop) in
    if x == 0 then done (size * 8) else by_size

-- The loop of `bitreverse`: `r_elem <<= 1; r_elem |= (x >> i) & 0x1`. The bit that is set is clear
-- after the shift.
unfoldable pub bitreverse_loop : (width rounds x i r_elem : ℕ) → ℕ
bitreverse_loop width zero x i r_elem = r_elem
bitreverse_loop width (suc rounds) x i r_elem =
    bitreverse_loop width rounds x (i + 1) (r_elem * 2 % 2 ^ width + bit x i)

unfoldable pub bitreverse : (width x : ℕ) → ℕ
unfolding bitreverse_loop
bitreverse width x = bitreverse_loop width width x 0 0
