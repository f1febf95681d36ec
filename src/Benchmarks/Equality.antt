-- ===== src/Benchmarks/Equality.antt =====
-- The loops of the benchmarks over an index whose lookups are right.
use learned_secondary_index.Common.{
  ℕ, zero, suc, ◌+◌, ◌-◌, ◌≤◌, ◌<◌, ◌≡◌, refl, ap, sym, leb, ◌==◌, true, false, Bool-cases, inl,
  inr, ◌⊎◌, some, List, [], ◌∷◌, length, get_elem?, get_or, arith,
}
use learned_secondary_index.Common.Run.{done}
use learned_secondary_index.Common.Sorting.{get_elem?-get_or}
use learned_secondary_index.Benchmarks.{BenchIndex, wrap, equality_loop}
use mathlib.Core.List.{Mem, mem-cons, not-mem-nil}
use mathlib.Core.Logic.Or
use mathlib.Core.HLevel.{⊥_prop}
use native.Mathlib.Decide.{ℕ_discrete}

-- What an equality lookup promises on a range: `Serves` is an invariant of the index, which lookups
-- keep, and a lookup of a key of the range finds it.
pub record EqualityIndex (x : BenchIndex) : Type 1 where
  pub Serves : List ℕ → x.Index → Type 0
  pub lookup-Serves :
      (base : List ℕ) (index : x.Index) (key d : ℕ)
      → Serves base index
      → get_elem? base d ≡ some key
      → (index' : x.Index) × (it : x.It) × (d' : ℕ) × (x.lookup false base key index
          ≡ done (index', it))
        × Serves base index'
        × (x.deref it ≡ done d')
        × (get_elem? base d' ≡ some key)

-- the wrap of the probe position ends inside the probing set
pub wrap_lem :
    (fuel i size : ℕ) → 0 < size → i < fuel → (j : ℕ) × (wrap fuel i size ≡ done j) × (j < size)
unfolding wrap
wrap_lem zero i size pos enough = absurd (omega arith)
wrap_lem (suc fuel) i size pos enough = elim (Bool-cases (leb size i)) [
  | inr e ↦ (i, rw e, ground arith)
  | inl e ↦
      let le : size ≤ i = ground arith in rw e (wrap_lem fuel (i - size) size pos (omega arith))
]

-- A member of a list of numbers has an index, which a search finds.
pub index_of : (x : ℕ) (xs : List ℕ) → ((d : ℕ) × (get_elem? xs d ≡ some x)) ⊎ (¬ Mem x xs)
index_of x [] = inr not-mem-nil
index_of x (y ∷ ys) = elim (ℕ_discrete x y) [
  | yes e ↦ inl (0, ap some (sym e))
  | no ne ↦ elim (index_of x ys) [
    | inl (d, at) ↦ inl (suc d, at)
    | inr absent ↦ inr (λ m. Or.elim ⊥_prop (mem-cons.0 m) ne absent)
  ]
]

pub mem-index : (x : ℕ) (xs : List ℕ) → Mem x xs → (d : ℕ) × (get_elem? xs d ≡ some x)
mem-index x xs m = elim (index_of x xs) [ inl found ↦ found | inr absent ↦ absurd (absent m) ]

-- Every probe is a key of the range.
abbrev pub ProbesIn : List ℕ → List ℕ → Type 0
ProbesIn base probes =
    (i p : ℕ) → get_elem? probes i ≡ some p → (d : ℕ) × (get_elem? base d ≡ some p)

module _ (x : BenchIndex) (e : EqualityIndex x) (base probes : List ℕ) where
  -- Over an index whose lookups of keys of the range find them, the loop of EqualityProbe returns
  -- without an error and without a read out of bounds, for any number of iterations from any
  -- start. There is at least one probe, and every probe is a key of the range.
  pub equality_loop_lem :
      (iterations i : ℕ) (index : x.Index)
      → e.Serves base index
      → 0 < length probes
      → ProbesIn base probes
      → equality_loop x base probes iterations i 0 index ≡ done 0
  unfolding equality_loop
  equality_loop_lem zero i index serves some_probe within = refl
  equality_loop_lem (suc iterations) i index serves some_probe within =
      let (j, wrapped, inside) = wrap_lem (suc i) i (length probes) some_probe (omega arith) in
      let p = get_or probes j 0 in
      let probe = get_elem?-get_or probes j 0 inside in
      let (d, at) = within j p probe in
      let (index', it, d', found, serves', deref, key) = e.lookup-Serves base index p d serves at in
      let on = equality_loop_lem iterations (j + 1) index' serves' some_probe within in
      let same : (p == p) ≡ true = ground arith in rw (wrapped, probe, found, deref, key, same, on)
