-- ===== src/PermVector.antt =====
-- include/util/permvector.hpp: displacements and fingerprint bits, bit-packed.
pub mod Build
pub mod Iterator
use learned_secondary_index.Common.{
  ℕ, zero, suc, ◌+◌, ltb, if◌then◌else◌, ◌==◌, Bool, ◌&&◌, not, Option, some, List, [], ◌∷◌,
}
use learned_secondary_index.Common.Run.{Run, done, out_of_fuel, ◌>>=◌, read}
use learned_secondary_index.Bitpacking.{BitPacking}
use learned_secondary_index.Fingerprinter
use learned_secondary_index.Fingerprinter.{Hasher, fingerprint}
use mathlib.Core.Option

-- What `build` asks of the iterator type that it is instantiated with.
pub record ForwardIt : Type 1 where
  pub Iter : Type 0
  pub deref : Iter → Run ℕ
  pub key : Iter → Run ℕ
  pub next : Iter → Iter
  pub before : Iter → Iter → Bool
  pub distance : Iter → Iter → ℕ

pub record Value : Type 0 where
  pub index : ℕ
  pub fingerprint_bits : ℕ

-- The fingerprinter has no state; its two parameters are those of the sections below.
pub record PermVector (b : BitPacking) : Type 0 where
  pub size : ℕ
  pub bytes : b.Bytes
  pub offsets_reader : b.Reader
  pub fingerprint_bits_reader : b.Reader

module _ (b : BitPacking) where
  -- the constructor of an empty vector
  unfoldable pub new : PermVector b
  new = record {
    size = 0;
    bytes = b.no_bytes;
    offsets_reader = b.no_reader;
    fingerprint_bits_reader = b.no_reader;
  }

  unfoldable pub perm_eq : PermVector b → PermVector b → Bool
  perm_eq v w = b.bytes_eq v.bytes w.bytes && v.size == w.size

  unfoldable pub perm_ne : PermVector b → PermVector b → Bool
  unfolding perm_eq
  perm_ne v w = not (perm_eq v w)

  -- `sizeof(PermVector)` is the compiler's
  unfoldable pub byte_size : (sizeof_perm_vector : ℕ) → PermVector b → ℕ
  byte_size sizeof_perm_vector v = sizeof_perm_vector + b.byte_count v.bytes

module _ (b : BitPacking) (h : Hasher) (fingerprint_size : ℕ) where
  unfoldable pub deserialize : PermVector b → ℕ → Run Value
  deserialize v i = do
    index ← read (b.get v.offsets_reader i)
    bits ← (if ltb 0 fingerprint_size then read (b.get v.fingerprint_bits_reader i) else done 0)
    done (record { index = index; fingerprint_bits = bits })

  unfoldable pub test : ℕ → Value → Bool
  test k v = Fingerprinter.test h fingerprint_size k v.fingerprint_bits

  -- the buffer with both arrays, the slop bytes and the two readers
  pack : ℕ → List ℕ → List ℕ → PermVector b
  pack size offsets prints =
      let width = b.max_bit_width offsets in
      let stored = b.store_bit_packed offsets width b.empty in
      let print_width = b.max_bit_width prints in
      let prints_pos = b.pos stored in
      let both =
        if ltb 0 fingerprint_size then b.store_bit_packed prints print_width stored else stored in
      let bytes = b.contents (b.put_slop_bytes both) in
      record {
        size = size;
        bytes = bytes;
        offsets_reader = b.reader width bytes 0;
        fingerprint_bits_reader =
            if ltb 0 fingerprint_size then b.reader print_width bytes prints_pos else b.no_reader;
      }

  -- the loop of `build`: what it pushes to `offsets` and to `fingerprint_bits`
  module _ (it : ForwardIt) where
    push_fingerprint : it.Iter → List ℕ → Run (List ℕ)
    push_fingerprint i prints =
        if ltb 0 fingerprint_size
        then (do k ← it.key i; done (fingerprint h fingerprint_size k ∷ prints))
        else done prints

    collect : ℕ → it.Iter → it.Iter → Run (List ℕ × List ℕ)
    unfolding push_fingerprint
    collect zero i end = if it.before i end then out_of_fuel else done ([], [])
    collect (suc rounds) i end =
        let more = (do
          offset ← it.deref i
          rest ← collect rounds (it.next i) end
          prints ← push_fingerprint i rest.1
          done (offset ∷ rest.0, prints)) in
        if it.before i end then more else done ([], [])

    unfoldable pub build : it.Iter → it.Iter → Run (PermVector b)
    unfolding collect pack
    build begin end = do
      (offsets, prints) ← collect (it.distance begin end) begin end
      done (pack (it.distance begin end) offsets prints)
