-- ===== src/Lsi/Lookup/Linear.antt =====
-- The linear search of `lookup` over a fitted index.
use learned_secondary_index.Common.{
  ℕ, zero, suc, ◌+◌, ◌-◌, ◌≤◌, ◌<◌, ◌≡◌, ap, ◌∙◌, Bool, leb, List, true, false, max, ltb, inl, inr,
  Bool-cases, arith,
}
use learned_secondary_index.Common.Word.{add64, add64_exact}
use learned_secondary_index.Common.Run.{done}
use learned_secondary_index.PermVector.{PermVector, Value}
use learned_secondary_index.Lsi.PermIter.{before}
use learned_secondary_index.Lsi.Lookup.{
  Counters, incr_base_accesses, incr_false_positives, passes_over, linear_search,
}
use learned_secondary_index.Lsi.Lookup.Loops.{
  entry_at, value_lem, passes_over-key, passes_over-lowerbound,
}
use learned_secondary_index.Lsi.View.{Represents, IsLowerBound, clamp}
use learned_secondary_index.Config.{Config}

module _ (c : Config) (v : PermVector c.packing) (base : List ℕ) (key : ℕ) (keys perm : ℕ → ℕ)
    (r : Represents c v base keys perm) where
  abbrev entry : ℕ → Value
  entry = entry_at c v base key keys perm r

  module _ (l : ℕ) (lb : IsLowerBound keys v.size key l) where
    pub linear_search_lowerbound_lem :
        (fuel start stop : ℕ) (n : Counters)
        → stop ≤ v.size
        → stop - start < fuel
        → (n' : Counters) × (linear_search c v base key true fuel start stop n
            ≡ done (clamp start l stop, n'))
    unfolding linear_search before
    linear_search_lowerbound_lem zero start stop n fits enough = absurd (omega arith)
    linear_search_lowerbound_lem (suc fuel) start stop n fits enough =
        elim (Bool-cases (ltb start stop)) [
          | inr e ↦ (n, ground arith)
          | inl e ↦
              let inside : start < stop = ground arith in
              let up : add64 start 1 ≡ start + 1 = add64_exact start 1 (omega (arith, r.small)) in
              let (n', found) =
                linear_search_lowerbound_lem fuel (add64 start 1) stop
                  (incr_false_positives (incr_base_accesses n)) fits (omega arith) in
              elim (Bool-cases (ltb start l)) [
                | inl u ↦ (
                  n',
                  ground (
                    arith,
                    found,
                    value_lem c v base key keys perm r start (omega arith),
                    passes_over-lowerbound c v base key keys perm r (entry start),
                    r.in_base start (omega arith),
                    lb.1 start,
                  ),
                )
                | inr d ↦ (
                  incr_base_accesses n,
                  ground (
                    arith,
                    value_lem c v base key keys perm r start (omega arith),
                    passes_over-lowerbound c v base key keys perm r (entry start),
                    r.in_base start (omega arith),
                    lb.2 start,
                  ),
                )
              ]
        ]

    -- a key of the range is found: values with other keys may be passed over, its own may not
    pub linear_search_hit :
        (fuel start stop : ℕ) (n : Counters)
        → start ≤ l
        → l < stop
        → stop ≤ v.size
        → keys l ≡ key
        → stop - start < fuel
        → (n' : Counters) × (linear_search c v base key false fuel start stop n ≡ done (l, n'))
    unfolding linear_search before
    linear_search_hit zero start stop n from until fits e enough = absurd (omega arith)
    linear_search_hit (suc fuel) start stop n from until fits e enough =
        let up : add64 start 1 ≡ start + 1 = add64_exact start 1 (omega (arith, r.small)) in
        let value = value_lem c v base key keys perm r start (omega arith) in
        elim (Bool-cases (ltb start l)) [
          | inr here ↦
              let same : start ≡ l = ground arith in
              let k : keys start ≡ key = ap keys same ∙ e in
              (
                incr_base_accesses n,
                ground (
                  arith,
                  value,
                  passes_over-key c v base key keys perm r false start k,
                  r.in_base start (omega arith),
                ),
              )
          | inl below ↦
              let on : (m : Counters)
                  → (n' : Counters) × (linear_search c v base key false fuel (add64 start 1) stop m
                      ≡ done (l, n')) =
                λ m.
                  linear_search_hit fuel (add64 start 1) stop m (ground arith) until fits e
                    (omega arith) in
              let (n', skipped) = on n in
              let (n'', missed) = on (incr_false_positives (incr_base_accesses n)) in
              elim (Bool-cases (passes_over c v base key false (entry start))) [
                | inl over ↦ (n', ground (arith, value, over, skipped))
                | inr not_over ↦ (
                  n'',
                  ground
                      (arith, value, not_over, missed, r.in_base start (omega arith), lb.1 start),
                )
              ]
        ]

    -- in any case the search ends in its interval, or at the end of it
    pub linear_search_total :
        (lowerbound : Bool) (fuel start stop : ℕ) (n : Counters)
        → stop ≤ v.size
        → stop - start < fuel
        → (i : ℕ) × (n' : Counters) × (linear_search c v base key lowerbound fuel start stop n
            ≡ done (i, n'))
          × (start ≤ i)
          × (i ≤ max start stop)
    unfolding linear_search before
    linear_search_total lowerbound zero start stop n fits enough = absurd (omega arith)
    linear_search_total lowerbound (suc fuel) start stop n fits enough =
        elim (Bool-cases (ltb start stop)) [
          | inr e ↦ (start, n, ground arith, omega arith, omega arith)
          | inl e ↦
              let inside : start < stop = ground arith in
              let up : add64 start 1 ≡ start + 1 = add64_exact start 1 (omega (arith, r.small)) in
              let value = value_lem c v base key keys perm r start (omega arith) in
              let (i, n', skipped, p, q) =
                linear_search_total lowerbound fuel (add64 start 1) stop n fits (omega arith) in
              let (i', n'', missed, p', q') =
                linear_search_total lowerbound fuel (add64 start 1) stop
                  (incr_false_positives (incr_base_accesses n)) fits (omega arith) in
              elim (Bool-cases (passes_over c v base key lowerbound (entry start))) [
                | inl over ↦ (i, n', ground (arith, value, over, skipped), omega arith, omega arith)
                | inr not_over ↦ elim (Bool-cases (leb key (keys start))) [
                  | inl stops ↦ (
                    start,
                    incr_base_accesses n,
                    ground (arith, value, not_over, r.in_base start (omega arith)),
                    omega arith,
                    omega arith,
                  )
                  | inr goes_on ↦ (
                    i',
                    n'',
                    ground (arith, value, not_over, missed, r.in_base start (omega arith)),
                    omega arith,
                    omega arith,
                  )
                ]
              ]
        ]

  -- where every key of the interval is smaller, the search runs to its end
  pub linear_search_miss :
      (lowerbound : Bool) (fuel start stop : ℕ) (n : Counters)
      → ((i : ℕ) → i < stop → keys i < key)
      → stop ≤ v.size
      → stop - start < fuel
      → (n' : Counters) × (linear_search c v base key lowerbound fuel start stop n
          ≡ done (max start stop, n'))
  unfolding linear_search before
  linear_search_miss lowerbound zero start stop n small fits enough = absurd (omega arith)
  linear_search_miss lowerbound (suc fuel) start stop n small fits enough =
      elim (Bool-cases (ltb start stop)) [
        | inr e ↦ (n, ground arith)
        | inl e ↦
            let inside : start < stop = ground arith in
            let up : add64 start 1 ≡ start + 1 = add64_exact start 1 (omega (arith, r.small)) in
            let value = value_lem c v base key keys perm r start (omega arith) in
            let (n', skipped) =
              linear_search_miss lowerbound fuel (add64 start 1) stop n small fits (omega arith) in
            let (n'', missed) =
              linear_search_miss lowerbound fuel (add64 start 1) stop
                (incr_false_positives (incr_base_accesses n)) small fits (omega arith) in
            elim (Bool-cases (passes_over c v base key lowerbound (entry start))) [
              | inl over ↦ (n', ground (arith, value, over, skipped))
              | inr not_over ↦ (
                n'',
                ground (arith, value, not_over, missed, r.in_base start (omega arith), small start),
              )
            ]
      ]
