-- ===== src/Common/Word.antt =====
-- `size_t` and `std::uint64_t`: native numbers, with `+` and `-` modulo 2 ^ 64 as in C++.
use Prim.Native.Nat.{ℕ, ◌+◌, ◌-◌, ◌/◌, ◌%◌, ◌^◌, ◌<◌, ◌≤◌}
use mathlib.Core.Path.{◌≡◌}
use native.Mathlib.Omega.{arith}

abbrev pub word : ℕ
word = 2 ^ 64

unfoldable pub add64 : ℕ → ℕ → ℕ
add64 a b = (a + b) % word

unfoldable pub sub64 : ℕ → ℕ → ℕ
sub64 a b = (a + word - b) % word

pub add64_exact : (a b : ℕ) → a + b < word → add64 a b ≡ a + b
unfolding add64
add64_exact a b h = omega arith

pub sub64_exact : (a b : ℕ) → b ≤ a → a < word → sub64 a b ≡ a - b
unfolding sub64
sub64_exact a b h k = omega arith

-- `lo + (hi - lo) / 2`
unfoldable pub midpoint : ℕ → ℕ → ℕ
unfolding add64 sub64
midpoint lo hi = add64 lo (sub64 hi lo / 2)

pub midpoint_exact : (lo hi : ℕ) → lo ≤ hi → hi < word → midpoint lo hi ≡ lo + (hi - lo) / 2
unfolding midpoint
midpoint_exact lo hi p q = omega arith
