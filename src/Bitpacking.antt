-- ===== src/Bitpacking.antt =====
-- The bit-packing library in include/util/bitpacking (a copy of google/cuckoo-index) as the
-- permutation vector uses it: a buffer that packed arrays are appended to, and readers over it.
use learned_secondary_index.Common.{ℕ, ◌<◌, ◌≡◌, Bool, true, Option, some, List, get_elem?}
use learned_secondary_index.Common.Word.{word}

-- every value fits a `uint64_t`
abbrev pub AllWords : List ℕ → Type 0
AllWords xs = (i x : ℕ) → get_elem? xs i ≡ some x → x < word

pub record BitPacking : Type 1 where
  -- `ci::ByteBuffer`, the `std::string` made of it, and `ci::BitPackedReader<uint64_t>`
  pub Buffer : Type 0
  pub Bytes : Type 0
  pub Reader : Type 0
  pub empty : Buffer
  pub pos : Buffer → ℕ
  pub pos-empty : pos empty ≡ 0
  pub max_bit_width : List ℕ → ℕ
  pub store_bit_packed : List ℕ → ℕ → Buffer → Buffer
  pub put_slop_bytes : Buffer → Buffer
  pub contents : Buffer → Bytes
  pub byte_count : Bytes → ℕ
  pub bytes_eq : Bytes → Bytes → Bool
  pub no_bytes : Bytes
  pub no_reader : Reader
  -- a reader of values of a bit width from a position on
  pub reader : ℕ → Bytes → ℕ → Reader
  -- `none` is a read outside the bytes
  pub get : Reader → ℕ → Option ℕ
  -- "the array stands packed in the buffer at this position"
  pub Written : Buffer → ℕ → List ℕ → Type 0
  pub store-Written :
      (b : Buffer) (xs : List ℕ)
      → AllWords xs
      → Written (store_bit_packed xs (max_bit_width xs) b) (pos b) xs
  pub store-keeps :
      (b : Buffer) (p w : ℕ) (xs ys : List ℕ)
      → Written b p xs
      → Written (store_bit_packed ys w b) p xs
  -- with the slop bytes behind it, what was written can be read
  pub get-Written :
      (b : Buffer) (p i x : ℕ) (xs : List ℕ)
      → Written b p xs
      → get_elem? xs i ≡ some x
      → get (reader (max_bit_width xs) (contents (put_slop_bytes b)) p) i ≡ some x
  pub bytes_eq_refl : (s : Bytes) → bytes_eq s s ≡ true
