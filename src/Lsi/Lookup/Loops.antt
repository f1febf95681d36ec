-- ===== src/Lsi/Lookup/Loops.antt =====
-- The three loops of `lookup` over a fitted index, where `l` is the boundary of the key.
use learned_secondary_index.Common.{
  ℕ, zero, suc, ◌+◌, ◌-◌, ◌≤◌, ◌<◌, ◌≡◌, refl, ap, List, Bool, true, false, max, ltb, ◌==◌, inl,
  inr, Bool-cases, not, arith,
}
use learned_secondary_index.Common.Word.{add64, add64_exact, midpoint, midpoint_exact}
use learned_secondary_index.Common.Run.{done}
use learned_secondary_index.Fingerprinter
use learned_secondary_index.Fingerprinter.{fingerprint}
use learned_secondary_index.PermVector
use learned_secondary_index.PermVector.{PermVector, Value, deserialize, perm_eq, perm_ne}
use learned_secondary_index.Lsi.PermIter
use learned_secondary_index.Lsi.PermIter.{PermIter, iter_ne, before}
use learned_secondary_index.Lsi.Lookup.{
  Counters, incr_base_accesses, iter_at, read_base, passes_over, binary_search, skip_smaller,
}
use learned_secondary_index.Lsi.View.{Represents, IsLowerBound, clamp}
use learned_secondary_index.Config.{Config}

module _ (c : Config) (v : PermVector c.packing) (base : List ℕ) (key : ℕ) (keys perm : ℕ → ℕ)
    (r : Represents c v base keys perm) where
  pub read_base_lem : (i : ℕ) → i < v.size → read_base c v base key i ≡ done (keys i)
  unfolding read_base
  read_base_lem i h = rw (r.entry i h, r.in_base i h)

  iter_ne_end :
      (i : ℕ) → iter_ne c (iter_at c v base key i) (iter_at c v base key v.size) ≡ not (i == v.size)
  unfolding iter_ne perm_ne
  iter_ne_end i = ground (arith, c.packing.bytes_eq_refl v.bytes)

  abbrev pub entry_at : ℕ → Value
  entry_at i = record {
    index = perm i;
    fingerprint_bits = fingerprint c.hasher c.fingerprint_size (keys i);
  }

  pub value_lem :
      (i : ℕ) → i < v.size → PermIter.value c (iter_at c v base key i) ≡ done (entry_at i)
  unfolding PermIter.value
  value_lem i h = r.entry i h

  -- a value with the key that is looked up is not passed over
  pub passes_over-key :
      (lowerbound : Bool) (i : ℕ)
      → keys i ≡ key
      → passes_over c v base key lowerbound (entry_at i) ≡ false
  unfolding passes_over PermVector.test Fingerprinter.test
  passes_over-key true i e = refl
  passes_over-key false i e = ground (arith, ap (fingerprint c.hasher c.fingerprint_size) e)

  -- every value is looked at in a lower bound search
  pub passes_over-lowerbound : (w : Value) → passes_over c v base key true w ≡ false
  unfolding passes_over
  passes_over-lowerbound w = refl

  module _ (l : ℕ) (lb : IsLowerBound keys v.size key l) where
    below_iff : (i : ℕ) → i < v.size → ltb (keys i) key ≡ ltb i l
    below_iff i h = ground (arith, lb.1 i, lb.2 i)

    pub binary_search_lem :
        (fuel start stop : ℕ) (n : Counters)
        → stop ≤ v.size
        → stop - start < fuel
        → (n' : Counters) × (binary_search c v base key fuel start stop n
            ≡ done (clamp start l stop, n'))
    unfolding binary_search
    binary_search_lem zero start stop n fits enough = absurd (omega arith)
    binary_search_lem (suc fuel) start stop n fits enough = elim (Bool-cases (ltb start stop)) [
      | inr e ↦ (n, ground arith)
      | inl e ↦
          let mid = midpoint start stop in
          let m = midpoint_exact start stop (ground arith) (omega (arith, r.small)) in
          let inside : mid < v.size = ground arith in
          let up : add64 mid 1 ≡ mid + 1 = add64_exact mid 1 (omega (arith, r.small)) in
          elim (Bool-cases (ltb mid l)) [
            | inl u ↦
                let (n', found) =
                  binary_search_lem fuel (add64 mid 1) stop (incr_base_accesses n) fits
                    (ground arith) in
                (n', ground (arith, found, read_base_lem mid inside, below_iff mid inside))
            | inr d ↦
                let (n', found) =
                  binary_search_lem fuel start mid (incr_base_accesses n) (ground arith)
                    (ground arith) in
                (n', ground (arith, found, read_base_lem mid inside, below_iff mid inside))
          ]
    ]

    pub skip_smaller_lem :
        (fuel ind : ℕ) (n : Counters)
        → ind ≤ v.size
        → v.size - ind < fuel
        → (n' : Counters) × (skip_smaller c v base key fuel ind n ≡ done (max ind l, n'))
    unfolding skip_smaller
    skip_smaller_lem zero ind n fits enough = absurd (omega arith)
    skip_smaller_lem (suc fuel) ind n fits enough = elim (Bool-cases (ind == v.size)) [
      | inl e ↦ (n, ground (arith, iter_ne_end ind, lb.0))
      | inr e ↦
          let inside : ind < v.size = ground arith in
          let up : add64 ind 1 ≡ ind + 1 = add64_exact ind 1 (omega (arith, r.small)) in
          let (n', found) =
            skip_smaller_lem fuel (add64 ind 1) (incr_base_accesses n) (omega arith)
              (omega arith) in
          elim (Bool-cases (ltb ind l)) [
            | inl u ↦ (
              n',
              ground
                  (arith, found, iter_ne_end ind, read_base_lem ind inside, below_iff ind inside),
            )
            | inr d ↦
                (n, ground (arith, iter_ne_end ind, read_base_lem ind inside, below_iff ind inside))
          ]
    ]
