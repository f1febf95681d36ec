-- ===== src/PermVector/Build.antt =====
-- `PermVector::build` (include/util/permvector.hpp) and the reads of what it packed.
use learned_secondary_index.Common.{
  ℕ, zero, suc, ◌^◌, ◌<◌, ◌≡◌, refl, ltb, if◌then◌else◌, Bool-cases, true, false, inl, inr, some,
  List, [], ◌∷◌, length, get_elem?, arith,
}
use learned_secondary_index.Common.Word.{word}
use learned_secondary_index.Common.Run.{done}
use learned_secondary_index.Bitpacking.{BitPacking, AllWords}
use learned_secondary_index.Fingerprinter.{Hasher, fingerprint}
use learned_secondary_index.PermVector.{
  ForwardIt, PermVector, build, collect, pack, push_fingerprint, deserialize,
}
use native.Mathlib.Nat.{mod-le}

-- An entry of the range that is built on: what `*it` and `it.key()` yield.
abbrev pub Entry : Type 0
Entry = ℕ × ℕ

-- The iterator visits these entries and then meets the end.
module _ (it : ForwardIt) (end : it.Iter) where
  abbrev pub Walk : List Entry → it.Iter → Type 0
  Walk [] i = it.before i end ≡ false
  Walk ((o, k) ∷ es) i =
      (it.before i end ≡ true) × (it.deref i ≡ done o) × (it.key i ≡ done k) × Walk es (it.next i)

abbrev pub offsets_of : List Entry → List ℕ
offsets_of [] = []
offsets_of ((o, k) ∷ es) = o ∷ offsets_of es

AllWords-cons : {x : ℕ} (xs : List ℕ) → x < word → AllWords xs → AllWords (x ∷ xs)
AllWords-cons xs lt all zero y e = ground arith
AllWords-cons xs lt all (suc i) y e = all i y e

module _ (h : Hasher) (s : ℕ) where
  -- what `build` pushes to `fingerprint_bits`
  abbrev pub prints_of : List Entry → List ℕ
  prints_of [] = []
  prints_of ((o, k) ∷ es) = if ltb 0 s then fingerprint h s k ∷ prints_of es else prints_of es

  fingerprint-lt : (k : ℕ) → fingerprint h s k < word
  unfolding fingerprint
  fingerprint-lt k = omega (arith, mod-le (h.hash k) (2 ^ s), h.hash-lt k)

  fingerprint_none : (k : ℕ) → ltb 0 s ≡ false → fingerprint h s k ≡ 0
  unfolding fingerprint
  fingerprint_none k e = let z : s ≡ 0 = ground arith in rw z (omega arith)

  prints-AllWords : (es : List Entry) → AllWords (prints_of es)
  prints-AllWords [] = λ i x e. ground arith
  prints-AllWords ((o, k) ∷ es) = elim (Bool-cases (ltb 0 s)) [
    | inl e ↦ rw e (AllWords-cons (prints_of es) (fingerprint-lt k) (prints-AllWords es))
    | inr e ↦ rw e (prints-AllWords es)
  ]

  get_elem?-prints_of :
      (es : List Entry) (i o k : ℕ)
      → ltb 0 s ≡ true
      → get_elem? es i ≡ some (o, k)
      → get_elem? (prints_of es) i ≡ some (fingerprint h s k)
  get_elem?-prints_of [] i o k t e = ground arith
  get_elem?-prints_of ((o', k') ∷ es) zero o k t e = rw t (ground arith)
  get_elem?-prints_of ((o', k') ∷ es) (suc i) o k t e = rw t (get_elem?-prints_of es i o k t e)

get_elem?-offsets_of :
    (es : List Entry) (i o k : ℕ)
    → get_elem? es i ≡ some (o, k)
    → get_elem? (offsets_of es) i ≡ some o
get_elem?-offsets_of [] i o k e = ground arith
get_elem?-offsets_of ((o', k') ∷ es) zero o k e = ground arith
get_elem?-offsets_of ((o', k') ∷ es) (suc i) o k e = get_elem?-offsets_of es i o k e

module _ (b : BitPacking) (h : Hasher) (s : ℕ) where
  -- the loop returns after as many rounds as there are entries, with both arrays
  collect-Walk :
      (it : ForwardIt) (end : it.Iter) (es : List Entry) (i : it.Iter)
      → Walk it end es i
      → collect b h s it (length es) i end ≡ done (offsets_of es, prints_of h s es)
  unfolding collect push_fingerprint
  collect-Walk it end [] i w = rw w refl
  collect-Walk it end ((o, k) ∷ es) i (t, d, e, w) = elim (Bool-cases (ltb 0 s)) [
    | inl p ↦ rw (t, d, collect-Walk it end es (it.next i) w, p, e)
    | inr p ↦ ground (arith, collect-Walk it end es (it.next i) w)
  ]

  module _ (es : List Entry) (all : AllWords (offsets_of es)) where
    -- the buffer with the offsets stored
    stored : b.Buffer
    stored = b.store_bit_packed (offsets_of es) (b.max_bit_width (offsets_of es)) b.empty

    stored-Written : b.Written stored 0 (offsets_of es)
    unfolding stored
    stored-Written = rw b.pos-empty at (b.store-Written b.empty (offsets_of es) all)

    read_offset_lem :
        (w i o : ℕ)
        → get_elem? (offsets_of es) i ≡ some o
        → (prints : List ℕ)
        → b.get
            (b.reader
              (b.max_bit_width (offsets_of es))
              (b.contents (b.put_slop_bytes (b.store_bit_packed prints w stored)))
              0)
            i
          ≡ some o
    read_offset_lem w i o e prints =
        b.get-Written _ 0 i o (offsets_of es) (b.store-keeps stored 0 w _ prints stored-Written) e

  -- both arrays are read back from the packed bytes, whatever the fingerprint size
  deserialize-pack :
      (es : List Entry) (i o k : ℕ)
      → AllWords (offsets_of es)
      → get_elem? es i ≡ some (o, k)
      → deserialize b h s (pack b h s (length es) (offsets_of es) (prints_of h s es)) i
        ≡ done (record { index = o; fingerprint_bits = fingerprint h s k })
  unfolding deserialize pack stored
  deserialize-pack es i o k all e = elim (Bool-cases (ltb 0 s)) [
    | inl p ↦ rw (
      p,
      read_offset_lem es all (b.max_bit_width (prints_of h s es)) i o
          (get_elem?-offsets_of es i o k e) (prints_of h s es),
      b.get-Written _ _ i _ (prints_of h s es)
          (b.store-Written (stored es all) (prints_of h s es) (prints-AllWords h s es))
          (get_elem?-prints_of h s es i o k p e),
    )
    | inr p ↦ rw (
      p,
      b.get-Written _ 0 i o (offsets_of es) (stored-Written es all)
          (get_elem?-offsets_of es i o k e),
      fingerprint_none h s k p,
    )
  ]

  -- `build` returns a vector of the size of the range, which deserializes at each position to the
  -- displacement of that entry and the fingerprint of its key, for every fingerprint size. The
  -- iterators walk the entries one by one and are as far apart as there are entries, and the
  -- displacements are below 2 ^ 64.
  pub build_lem :
      (it : ForwardIt) (begin end : it.Iter) (es : List Entry)
      → Walk it end es begin
      → it.distance begin end ≡ length es
      → AllWords (offsets_of es)
      → (v : PermVector b) × (build b h s it begin end ≡ done v)
        × (v.size ≡ length es)
        × ((i o k : ℕ)
            → get_elem? es i ≡ some (o, k)
            → deserialize b h s v i
              ≡ done (record { index = o; fingerprint_bits = fingerprint h s k }))
  unfolding build
  build_lem it begin end es w d all = (
    pack b h s (length es) (offsets_of es) (prints_of h s es),
    rw (d, collect-Walk it end es begin w) refl,
    refl,
    λ i o k e. deserialize-pack es i o k all e,
  )
