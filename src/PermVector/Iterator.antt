-- ===== src/PermVector/Iterator.antt =====
-- `PermVector::PermIterator` (include/util/permvector.hpp), and a walk over a whole vector.
use learned_secondary_index.Common.{
  ℕ, zero, suc, ◌+◌, ◌<◌, ◌≡◌, refl, ap, ◌∙◌, ltb, ◌==◌, not, Bool, ◌&&◌, ◌||◌, if◌then◌else◌, some,
  List, [], ◌∷◌, length, get_elem?, arith,
}
use learned_secondary_index.Common.Word.{word, add64, add64_exact, sub64}
use learned_secondary_index.Common.Run.{Run, done, out_of_fuel, ◌>>=◌}
use learned_secondary_index.Bitpacking.{BitPacking}
use learned_secondary_index.Fingerprinter.{Hasher, fingerprint}
use learned_secondary_index.PermVector.{PermVector, Value, deserialize}
use learned_secondary_index.PermVector.Build.{Entry}
use native.Mathlib.Nat.{add-zero, zero-add}

module _ (b : BitPacking) (h : Hasher) (fingerprint_size : ℕ) where
  -- `_ref` with its address, by which iterators are compared, and `_index`
  pub record PermIterator : Type 0 where
    pub address : ℕ
    pub ref : PermVector b
    pub index : ℕ

  unfoldable pub deref : PermIterator → Run Value
  deref i = deserialize b h fingerprint_size i.ref i.index

  -- `++it`
  unfoldable pub next : PermIterator → PermIterator
  next i = record i { index = add64 i.index 1 }

  -- `it++`: the iterator afterwards, and the result
  unfoldable pub post_next : PermIterator → PermIterator × PermIterator
  unfolding next
  post_next i = (next i, i)

  -- `it += n`, and `it + n`
  unfoldable pub plus : PermIterator → ℕ → PermIterator
  plus i n = record i { index = add64 i.index n }

  unfoldable pub minus : PermIterator → ℕ → PermIterator
  minus i n = record i { index = sub64 i.index n }

  unfoldable pub distance : PermIterator → PermIterator → ℕ
  distance i j = sub64 i.index j.index

  unfoldable pub before : PermIterator → PermIterator → Bool
  before i j = ltb i.index j.index

  unfoldable pub iter_eq : PermIterator → PermIterator → Bool
  iter_eq i j = i.index == j.index && i.address == j.address

  unfoldable pub iter_ne : PermIterator → PermIterator → Bool
  iter_ne i j = not (i.index == j.index) || not (i.address == j.address)

  -- `operator[]`, and the ends of a vector at an address
  unfoldable pub at : PermVector b → ℕ → Run Value
  unfolding deref
  at v i = deref (record { address = 0; ref = v; index = i })

  unfoldable pub begin : ℕ → PermVector b → PermIterator
  begin address v = record { address = address; ref = v; index = 0 }

  unfoldable pub end : ℕ → PermVector b → PermIterator
  end address v = record { address = address; ref = v; index = v.size }

  -- `for (it = i; it < j; it++)`, with the values that are read
  unfoldable pub walk : (fuel : ℕ) → PermIterator → PermIterator → Run (List Value)
  unfolding deref next before
  walk zero i j = out_of_fuel
  walk (suc fuel) i j =
      let more = (do value ← deref i; rest ← walk fuel (next i) j; done (value ∷ rest)) in
      if before i j then more else done []

  -- the value that stands for an entry
  abbrev pub value_of : Entry → Value
  value_of (o, k) = record { index = o; fingerprint_bits = fingerprint h fingerprint_size k }

  abbrev pub values_of : List Entry → List Value
  values_of [] = []
  values_of (e ∷ es) = value_of e ∷ values_of es

  -- from index `i` on a vector holds the entries `rest`
  walk_from :
      (address i : ℕ) (v : PermVector b) (rest : List Entry)
      → v.size < word
      → i + length rest ≡ v.size
      → ((j : ℕ) (e : Entry)
          → get_elem? rest j ≡ some e
          → deserialize b h fingerprint_size v (i + j) ≡ done (value_of e))
      → walk (suc (length rest)) (record { address = address; ref = v; index = i }) (end address v)
        ≡ done (values_of rest)
  unfolding walk end
  walk_from address i v [] small e held = ground arith
  walk_from address i v (x ∷ rest) small e held =
      let up : add64 i 1 ≡ i + 1 = add64_exact i 1 (omega arith) in
      let first : deserialize b h fingerprint_size v i ≡ done (value_of x) =
        rw add-zero at (held 0 x refl) in
      let on = walk_from address (add64 i 1) v rest small (omega arith) (λ j y f.
        let same : add64 i 1 + j ≡ i + suc j = omega arith in rw same (held (suc j) y f)) in
      ground (arith, first, on)

  -- A walk by iterators from `begin()` to `end()` of a vector of fewer than 2 ^ 64 entries ends,
  -- and reads the entries that the vector holds, all and in order.
  pub walk_lem :
      (address : ℕ) (v : PermVector b) (entries : List Entry)
      → v.size < word
      → v.size ≡ length entries
      → ((i : ℕ) (e : Entry)
          → get_elem? entries i ≡ some e
          → deserialize b h fingerprint_size v i ≡ done (value_of e))
      → walk (suc v.size) (begin address v) (end address v) ≡ done (values_of entries)
  unfolding begin
  walk_lem address v entries small size held =
      ap (λ fuel. walk fuel (begin address v) (end address v)) (ap suc size)
      ∙ walk_from address 0 v entries small (omega arith) (λ j e f. rw zero-add (held j e f))
