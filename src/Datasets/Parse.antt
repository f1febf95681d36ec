-- ===== src/Datasets/Parse.antt =====
-- `dataset::load` (src/support/datasets.hpp): a binary file of keys, in little endian.
use learned_secondary_index.Common.{
  ℕ, zero, suc, ◌+◌, ◌-◌, ◌*◌, ◌/◌, ◌%◌, ◌^◌, ◌≤◌, ◌<◌, ◌≡◌, refl, sym, ap, ◌∙◌, ltb, ◌==◌,
  if◌then◌else◌, Bool, true, false, Option, none, some, List, [], ◌∷◌, ◌++◌, length, get_elem?,
  replicate, arith,
}
use learned_secondary_index.Common.Word.{word}
use native.Mathlib.Nat.{add-zero, zero-add, suc-add}
use learned_secondary_index.Common.Run.{Run, done, out_of_bounds, ◌>>=◌, read}

-- What a call of `load` comes to: a vector, an exception, or a read or write outside a vector.
pub data Load : Type 0 where
  loaded : List ℕ → Load
  thrown : Load
  faulted : Load

-- The bytes are joined by `|` of shifts that do not overlap.
unfoldable pub read_little_endian_8 : List ℕ → ℕ → Run ℕ
read_little_endian_8 buffer offset = do
  b0 ← read (get_elem? buffer offset)
  b1 ← read (get_elem? buffer (offset + 1))
  b2 ← read (get_elem? buffer (offset + 2))
  b3 ← read (get_elem? buffer (offset + 3))
  b4 ← read (get_elem? buffer (offset + 4))
  b5 ← read (get_elem? buffer (offset + 5))
  b6 ← read (get_elem? buffer (offset + 6))
  b7 ← read (get_elem? buffer (offset + 7))
  done (
      b0
      + b1 * 2 ^ 8
      + b2 * 2 ^ 16
      + b3 * 2 ^ 24
      + b4 * 2 ^ 32
      + b5 * 2 ^ 40
      + b6 * 2 ^ 48
      + b7 * 2 ^ 56)

-- An `int` that is stored as a `std::uint64_t`: a set bit 31 is copied into the upper half.
abbrev pub sign_extend : ℕ → ℕ
sign_extend x = if ltb x (2 ^ 31) then x else x + (2 ^ 64 - 2 ^ 32)

-- The bytes are promoted to `int` and joined there, and the element is a `std::uint64_t`.
unfoldable pub read_little_endian_4 : List ℕ → ℕ → Run ℕ
read_little_endian_4 buffer offset = do
  b0 ← read (get_elem? buffer offset)
  b1 ← read (get_elem? buffer (offset + 1))
  b2 ← read (get_elem? buffer (offset + 2))
  b3 ← read (get_elem? buffer (offset + 3))
  done (sign_extend (b0 + b1 * 2 ^ 8 + b2 * 2 ^ 16 + b3 * 2 ^ 24))

-- `for (i < num_elements) dataset[i] = element(buffer, i * width + 8)`, over the elements from `i`
-- on: a write behind the last one is out of bounds.
unfoldable pub fill : (element : ℕ → Run ℕ) (width rounds i : ℕ) → List ℕ → Run (List ℕ)
fill element width zero i cells = done cells
fill element width (suc rounds) i [] = out_of_bounds
fill element width (suc rounds) i (cell ∷ cells) = do
  x ← element (i * width + 8)
  rest ← fill element width rounds (i + 1) cells
  done (x ∷ rest)

abbrev pub finish : (List ℕ → List ℕ) → Run (List ℕ) → Load
finish sort (done xs) = loaded (sort xs)
finish sort _ = faulted

module _ (sort : List ℕ → List ℕ) where
  -- the buffer of the file, for keys of `width` bytes
  unfoldable pub parse : (width : ℕ) → List ℕ → Load
  unfolding fill
  parse width buffer =
      let max_num_elements = (length buffer - 8) / width in
      let dataset = replicate max_num_elements 0 in
      let parsed_8 = (do
        num_elements ← read_little_endian_8 buffer 0
        fill (read_little_endian_8 buffer) 8 num_elements 0 dataset) in
      let parsed_4 = (do
        num_elements ← read_little_endian_8 buffer 0
        fill (read_little_endian_4 buffer) 4 num_elements 0 dataset) in
      if width == 8
      then finish sort parsed_8
      else (if width == 4 then finish sort parsed_4 else thrown)

  -- `none` is a file that cannot be opened. A file shorter than its header makes the size of the
  -- vector wrap around, and its allocation throws.
  -- `complete` is whether `input.read` gets all the bytes.
  unfoldable pub load : (width : ℕ) (complete : Bool) → Option (List ℕ) → Load
  unfolding parse
  load width complete none = loaded []
  load width complete (some buffer) =
      if ltb (length buffer) 8 then thrown else (if complete then parse width buffer else thrown)

-- the 8 bytes of a number, and of a list of numbers, lowest first
abbrev pub encode : ℕ → List ℕ → List ℕ
encode x rest =
    (x % 2 ^ 8)
    ∷ (x / 2 ^ 8 % 2 ^ 8)
    ∷ (x / 2 ^ 16 % 2 ^ 8)
    ∷ (x / 2 ^ 24 % 2 ^ 8)
    ∷ (x / 2 ^ 32 % 2 ^ 8)
    ∷ (x / 2 ^ 40 % 2 ^ 8)
    ∷ (x / 2 ^ 48 % 2 ^ 8)
    ∷ (x / 2 ^ 56 % 2 ^ 8)
    ∷ rest

abbrev pub encode_all : List ℕ → List ℕ → List ℕ
encode_all [] rest = rest
encode_all (x ∷ xs) rest = encode x (encode_all xs rest)

-- the buffer reads as `rest` from the offset on
abbrev Reads : List ℕ → ℕ → List ℕ → Type 0
Reads buffer offset rest = (j : ℕ) → get_elem? buffer (offset + j) ≡ get_elem? rest j

digits_8 :
    (x : ℕ)
    → x < word
    → x % 2 ^ 8
        + x / 2 ^ 8 % 2 ^ 8 * 2 ^ 8
        + x / 2 ^ 16 % 2 ^ 8 * 2 ^ 16
        + x / 2 ^ 24 % 2 ^ 8 * 2 ^ 24
        + x / 2 ^ 32 % 2 ^ 8 * 2 ^ 32
        + x / 2 ^ 40 % 2 ^ 8 * 2 ^ 40
        + x / 2 ^ 48 % 2 ^ 8 * 2 ^ 48
        + x / 2 ^ 56 % 2 ^ 8 * 2 ^ 56
      ≡ x
digits_8 x lt = omega arith

-- What is encoded at an offset is read back there.
pub read_little_endian_8-encode :
    (buffer : List ℕ) (offset x : ℕ) (rest : List ℕ)
    → x < word
    → ((j : ℕ) → get_elem? buffer (offset + j) ≡ get_elem? (encode x rest) j)
    → read_little_endian_8 buffer offset ≡ done x
unfolding read_little_endian_8
read_little_endian_8-encode buffer offset x rest lt h =
    rw (rw add-zero at (h 0), h 1, h 2, h 3, h 4, h 5, h 6, h 7) (ap done (digits_8 x lt))

fill-encode_all :
    (buffer xs rest : List ℕ) (i extra : ℕ)
    → ((j x : ℕ) → get_elem? xs j ≡ some x → x < word)
    → Reads buffer (i * 8 + 8) (encode_all xs rest)
    → fill (read_little_endian_8 buffer) 8 (length xs) i (replicate (length xs + extra) 0)
      ≡ done (xs ++ replicate extra 0)
unfolding fill
fill-encode_all buffer [] rest i extra small h = rw zero-add refl
fill-encode_all buffer (x ∷ xs) rest i extra small h =
    let here =
      read_little_endian_8-encode buffer (i * 8 + 8) x (encode_all xs rest) (small 0 x refl) h in
    let on =
      fill-encode_all buffer xs rest (i + 1) extra (λ j y e. small (suc j) y e)
        (λ j.
          let k : ℕ = suc (suc (suc (suc (suc (suc (suc (suc j))))))) in
          let same : (i + 1) * 8 + 8 + j ≡ i * 8 + 8 + k = omega arith in rw same (h k)) in
    rw suc-add (rw (here, on) refl)

length-encode_all : (xs rest : List ℕ) → length (encode_all xs rest) ≡ 8 * length xs + length rest
length-encode_all [] rest = omega arith
length-encode_all (x ∷ xs) rest = omega (arith, length-encode_all xs rest)

load_lem :
    (sort : List ℕ → List ℕ) (buffer zs : List ℕ) (n : ℕ)
    → 8 ≤ length buffer
    → read_little_endian_8 buffer 0 ≡ done n
    → fill (read_little_endian_8 buffer) 8 n 0 (replicate ((length buffer - 8) / 8) 0) ≡ done zs
    → load sort 8 true (some buffer) ≡ loaded (sort zs)
unfolding load
load_lem sort buffer zs n long count filled =
    let test : ltb (length buffer) 8 ≡ false = ground arith in rw (test, count, filled)

-- A file that is read completely and holds the number of keys and then the keys, each of 8 bytes
-- and below 2 ^ 64, loads as the sorted keys with one key 0 more for every 8 bytes that follow
-- them; no key is left out, however often it occurs. There are fewer than 2 ^ 64 keys.
pub load-encode :
    (sort : List ℕ → List ℕ) (xs trailing : List ℕ)
    → length xs < word
    → ((j x : ℕ) → get_elem? xs j ≡ some x → x < word)
    → load sort 8 true (some (encode (length xs) (encode_all xs trailing)))
      ≡ loaded (sort (xs ++ replicate (length trailing / 8) 0))
load-encode sort xs trailing few small =
    let buffer = encode (length xs) (encode_all xs trailing) in
    let size : length buffer ≡ 8 + 8 * length xs + length trailing =
      omega (arith, length-encode_all xs trailing) in
    let capacity : length xs + length trailing / 8 ≡ (length buffer - 8) / 8 = omega arith in
    let at_8 : Reads buffer (0 * 8 + 8) (encode_all xs trailing) = λ j.
      let k : ℕ = suc (suc (suc (suc (suc (suc (suc (suc j))))))) in
      let same : 8 + j ≡ k = omega arith in ap (get_elem? buffer) same in
    load_lem sort buffer (xs ++ replicate (length trailing / 8) 0) (length xs) (omega arith)
      (read_little_endian_8-encode buffer 0 (length xs) (encode_all xs trailing) few
        (λ j. rw zero-add))
      (ap (λ n. fill (read_little_endian_8 buffer) 8 (length xs) 0 (replicate n 0)) (sym capacity)
        ∙ fill-encode_all buffer xs trailing 0 (length trailing / 8) small at_8)
