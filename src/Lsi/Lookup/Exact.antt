-- ===== src/Lsi/Lookup/Exact.antt =====
-- What `lookup` returns over a fitted index, for all four template variants of the search.
use learned_secondary_index.Common.{
  ℕ, suc, ◌+◌, ◌-◌, ◌≤◌, ◌<◌, ◌≡◌, ◌≢◌, ◌⊎◌, inl, inr, List, Bool, true, false, min, max, ltb, ◌||◌,
  ◌==◌, if◌then◌else◌, Bool-cases, arith,
}
use learned_secondary_index.Common.Word.{word, add64, add64_exact, sub64_exact}
use learned_secondary_index.Common.Run.{done, ◌>>=◌}
use learned_secondary_index.PermVector.{PermVector}
use learned_secondary_index.Lsi.Index.{Index}
use learned_secondary_index.Lsi.PermIter.{PermIter}
use learned_secondary_index.Lsi.Lookup.{
  Counters, read_base, settle, search_interval, lookup, with_counters, start_at, stop_at, end,
}
use learned_secondary_index.Lsi.Lookup.Loops.{read_base_lem, binary_search_lem, skip_smaller_lem}
use learned_secondary_index.Lsi.Lookup.Linear.{
  linear_search_lowerbound_lem, linear_search_hit, linear_search_total, linear_search_miss,
}
use learned_secondary_index.Lsi.View.{Represents, IsLowerBound, clamp}
use learned_secondary_index.Config.{Config}

==_refl : (a : ℕ) → (a == a) ≡ true
==_refl a = ground arith

module _ (c : Config) (base : List ℕ) (key : ℕ) (index : Index c) (keys perm : ℕ → ℕ)
    (r : Represents c index.perm_vector base keys perm)
    (no_wrap : c.cdf.predict index.model key + index.max_error + 1 < word) where
  abbrev v : PermVector c.packing
  v = index.perm_vector

  abbrev pred : ℕ
  pred = c.cdf.predict index.model key

  -- the first position that the search looks at
  abbrev pub first_probe : ℕ
  first_probe = pred - index.max_error

  start_lem : (lowerbound : Bool) → start_at c lowerbound base key index ≡ first_probe
  start_lem lowerbound =
      omega (arith, sub64_exact pred (min pred index.max_error) (omega arith) (omega arith))

  stop_lem :
      (lowerbound : Bool)
      → stop_at c lowerbound base key index ≡ min (pred + index.max_error + 1) v.size
  stop_lem lowerbound = omega (
    arith,
    add64_exact pred index.max_error (omega arith),
    add64_exact (add64 pred index.max_error) 1
        (omega (arith, add64_exact pred index.max_error (omega arith))),
  )

  -- Either search of a lower bound lookup ends at the boundary, as far as its interval reaches.
  module _ (l : ℕ) (lb : IsLowerBound keys v.size key l) where
    search_lowerbound :
        (n : Counters) × (search_interval c true base key index
          ≡ done (clamp first_probe l (min (pred + index.max_error + 1) v.size), n))
    unfolding search_interval
    search_lowerbound =
        rw (start_lem true, stop_lem true)
          (elim (Bool-cases (c.force_linear_search || ltb 0 c.fingerprint_size)) [
            | inl e ↦ rw e (
                linear_search_lowerbound_lem c v base key keys perm r l lb _ _ _ _ (omega arith)
                  (omega arith))
            | inr e ↦ rw e (
                binary_search_lem c v base key keys perm r l lb _ _ _ _ (omega arith) (omega arith))
          ])

    -- On a vector that lists the range in key order, a lower bound lookup with any model returns
    -- the later one of the first position whose key is not smaller and the first position of the
    -- search interval. That interval begins inside the vector or at its end, and its end does not
    -- wrap around 2 ^ 64.
    pub lookup_lowerbound :
        first_probe ≤ v.size
        → (n : Counters) × (lookup c true base key index
            ≡ done (with_counters c index n, record { index = max first_probe l; perm_vector = v }))
    unfolding lookup settle
    lookup_lowerbound near =
        let (n, found) = search_lowerbound in
        let at = clamp first_probe l (min (pred + index.max_error + 1) v.size) in
        let (n', skipped) =
          skip_smaller_lem c v base key keys perm r l lb (suc v.size) at n (omega arith)
            (omega arith) in
        let same : max at l ≡ max first_probe l = omega arith in (n', rw (found, skipped, same))

    search_hit :
        l < v.size
        → keys l ≡ key
        → first_probe ≤ l
        → l ≤ pred + index.max_error
        → (n : Counters) × (search_interval c false base key index ≡ done (l, n))
    unfolding search_interval
    search_hit inside e from until =
        rw (start_lem false, stop_lem false)
          (elim (Bool-cases (c.force_linear_search || ltb 0 c.fingerprint_size)) [
            | inl linear ↦ rw linear (
                linear_search_hit c v base key keys perm r l lb _ _ _ _ from (omega arith)
                  (omega arith) e (omega arith))
            | inr binary ↦
                let stop = min (pred + index.max_error + 1) v.size in
                let same : clamp first_probe l stop ≡ l = omega arith in
                rw binary (
                  rw same at (
                    binary_search_lem c v base key keys perm r l lb (suc (stop - first_probe))
                      first_probe stop
                      (record {
                        base_data = index.base_data_accesses;
                        false_positive = index.false_positive_accesses;
                      })
                      (omega arith) (omega arith)))
          ])

    -- Any search ends in its interval or at the end of it.
    search_total :
        (i : ℕ) × (n : Counters) × (search_interval c false base key index ≡ done (i, n))
        × (first_probe ≤ i)
        × (i ≤ max first_probe (min (pred + index.max_error + 1) v.size))
    unfolding search_interval
    search_total =
        rw (start_lem false, stop_lem false)
          (elim (Bool-cases (c.force_linear_search || ltb 0 c.fingerprint_size)) [
            | inl linear ↦ rw linear (
                linear_search_total c v base key keys perm r l lb false _ _ _ _ (omega arith)
                  (omega arith))
            | inr binary ↦
                let (n, found) =
                  binary_search_lem c v base key keys perm r l lb
                    (suc (min (pred + index.max_error + 1) v.size - first_probe)) first_probe
                    (min (pred + index.max_error + 1) v.size)
                    (record {
                      base_data = index.base_data_accesses;
                      false_positive = index.false_positive_accesses;
                    })
                    (omega arith) (omega arith) in
                rw binary (
                  clamp first_probe l (min (pred + index.max_error + 1) v.size),
                  n,
                  found,
                  omega arith,
                  omega arith,
                )
          ])

    -- an equality lookup of a key of the range whose boundary lies in the search interval
    -- returns the boundary
    pub lookup_hit :
        l < v.size
        → keys l ≡ key
        → first_probe ≤ l
        → l ≤ pred + index.max_error
        → (n : Counters) × (lookup c false base key index
            ≡ done (with_counters c index n, record { index = l; perm_vector = v }))
    unfolding lookup settle
    lookup_hit inside e from until =
        let (n, found) = search_hit inside e from until in
        (n, rw (found, read_base_lem c v base key keys perm r l inside, e, ==_refl key))

    -- an equality lookup of a key that is not in the range looks at one more position, `i`, and
    -- returns `end()` unless that position lies behind the last one
    pub lookup_absent :
        ((i : ℕ) → i < v.size → keys i ≢ key)
        → first_probe < v.size
        → pred + index.max_error + 1 < v.size
        → (n : Counters) × (lookup c false base key index
            ≡ done (with_counters c index n, end c index))
    unfolding lookup settle end
    lookup_absent absent from until =
        let (i, n, found, p, q) = search_total in
        let inside : i < v.size = omega arith in
        let differs : (keys i == key) ≡ false = ground (arith, absent i inside) in
        (n, rw (found, read_base_lem c v base key keys perm r i inside, differs))

  -- above the last key an interval that reaches the end of the vector makes the equality lookup
  -- read the position behind the last one
  pub lookup_past_end :
      ((i : ℕ) → i < v.size → keys i < key)
      → first_probe ≤ v.size
      → v.size ≤ pred + index.max_error + 1
      → (n : Counters) × (lookup c false base key index
          ≡ ◌>>=◌ {B = Index c × PermIter c}
              (read_base c v base key v.size)
              (λ k. done (with_counters c index n, end c index)))
  unfolding lookup search_interval settle end
  lookup_past_end above from until =
      rw (start_lem false, stop_lem false)
        (elim (Bool-cases (c.force_linear_search || ltb 0 c.fingerprint_size)) [
          | inl linear ↦
              let (n, found) =
                linear_search_miss c v base key keys perm r false
                  (suc (min (pred + index.max_error + 1) v.size - first_probe)) first_probe
                  (min (pred + index.max_error + 1) v.size) here (λ i h. above i (omega arith))
                  (omega arith) (omega arith) in
              let same : max first_probe (min (pred + index.max_error + 1) v.size) ≡ v.size =
                omega arith in
              (n, rw (linear, found, same) (same_either n))
          | inr binary ↦
              let (n, found) =
                binary_search_lem c v base key keys perm r v.size
                  (omega arith, above, λ i p q. absurd (omega arith))
                  (suc (min (pred + index.max_error + 1) v.size - first_probe)) first_probe
                  (min (pred + index.max_error + 1) v.size) here (omega arith) (omega arith) in
              let same : clamp first_probe v.size (min (pred + index.max_error + 1) v.size)
                  ≡ v.size =
                omega arith in
              (n, rw (binary, found, same) (same_either n))
        ])
    where
      here : Counters
      here = record {
        base_data = index.base_data_accesses;
        false_positive = index.false_positive_accesses;
      }

      same_either :
          (n : Counters)
          → (◌>>=◌ {B = Index c × PermIter c}
              (◌>>=◌ {B = ℕ × Counters}
                (read_base c v base key v.size)
                (λ k. done (if k == key then v.size else v.size, n)))
              (λ (i, n'). done (with_counters c index n', record { index = i; perm_vector = v })))
            ≡ (◌>>=◌ {B = Index c × PermIter c}
                (read_base c v base key v.size)
                (λ k. done (with_counters c index n, record { index = v.size; perm_vector = v })))
      same_either n = ground arith

-- Whatever an index and a range hold, an equality lookup that returns has returned `end()` or an
-- iterator at which the range holds the key.
pub lookup_sound :
    (c : Config) (base : List ℕ) (key : ℕ) (index index' : Index c) (it : PermIter c)
    → lookup c false base key index ≡ done (index', it)
    → (it ≡ end c index) ⊎ (read_base c index.perm_vector base key it.index ≡ done key)
unfolding lookup settle end
lookup_sound c base key index index' it e = ground arith
