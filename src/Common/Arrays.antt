-- ===== src/Common/Arrays.antt =====
-- Arrays of a fixed length as lists, with the reads, writes and copies of C++. An access that leaves
-- the array is out of bounds.
use Prim.Native.Nat.{ℕ, zero, suc, ◌+◌}
use mathlib.Core.Bool.{◌&&◌}
use mathlib.Core.List.{List, [], ◌∷◌, ◌++◌}
use learned_secondary_index.Common.Lists.{length, get_elem?, take, drop}
use learned_secondary_index.Common.Tests.{ltb, leb, if◌then◌else◌}
use learned_secondary_index.Common.Run.{Run, done, out_of_bounds, read}

module _ {ℓ} {A : Type ℓ} where
  -- `a[i]`
  abbrev pub at : List A → ℕ → Run A
  at a i = read (get_elem? a i)

  -- nothing changes behind the end
  abbrev pub set : (array : List A) (index : ℕ) (new : A) → List A
  set (old ∷ array) zero new = new ∷ array
  set (old ∷ array) (suc index) new = old ∷ set array index new
  set [] index new = []

  -- `a[i] = v`
  abbrev pub write : List A → ℕ → A → Run (List A)
  write a i v = if ltb i (length a) then done (set a i v) else out_of_bounds

  -- `memmove(a + dst, a + src, n)`
  abbrev pub memmove : List A → (dst src n : ℕ) → Run (List A)
  memmove a dst src n =
      if leb (dst + n) (length a) && leb (src + n) (length a)
      then done (take dst a ++ (take n (drop src a) ++ drop (dst + n) a))
      else out_of_bounds

  -- `memcpy(a + dst, b + src, n)`
  abbrev pub memcpy : List A → (dst : ℕ) → List A → (src n : ℕ) → Run (List A)
  memcpy a dst b src n =
      if leb (dst + n) (length a) && leb (src + n) (length b)
      then done (take dst a ++ (take n (drop src b) ++ drop (dst + n) a))
      else out_of_bounds
