-- ===== src/Fingerprinter.antt =====
-- include/util/fingerprinter.hpp: the low bits of a hash of the key.
use learned_secondary_index.Common.{ℕ, ◌%◌, ◌^◌, ◌<◌, ◌==◌, Bool}
use learned_secondary_index.Common.Word.{word}

-- `hashing::MurmurFinalizer`, a function of the key into `std::uint64_t`.
pub record Hasher : Type 0 where
  pub hash : ℕ → ℕ
  pub hash-lt : (v : ℕ) → hash v < word

module _ (h : Hasher) (fingerprint_size : ℕ) where
  -- `_hash(v) & ((1 << fingerprint_size) - 1)`
  unfoldable pub fingerprint : ℕ → ℕ
  fingerprint v = h.hash v % 2 ^ fingerprint_size

  unfoldable pub test : ℕ → ℕ → Bool
  unfolding fingerprint
  test v print = print == fingerprint v
