-- ===== src/Common/Run.antt =====
-- What a run of the code comes to: a value, a read outside the memory it may read, or no end
-- within the rounds that the model grants a loop.
use mathlib.Core.Option.{Option, none, some}

pub data Run {ℓ} (A : Type ℓ) : Type ℓ where
  done : A → Run A
  out_of_bounds : Run A
  out_of_fuel : Run A

infixl 5 ◌>>=◌
abbrev pub ◌>>=◌ {ℓ ℓ'} : {A : Type ℓ} {B : Type ℓ'} → Run A → (then : A → Run B) → Run B
done a >>= f = f a
out_of_bounds >>= f = out_of_bounds
out_of_fuel >>= f = out_of_fuel

-- a read that yields nothing is a fault
abbrev pub read {ℓ} : {A : Type ℓ} → Option A → Run A
read none = out_of_bounds
read (some a) = done a
