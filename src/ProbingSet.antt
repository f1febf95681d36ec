-- ===== src/ProbingSet.antt =====
-- src/support/probing_set.hpp: the order in which a benchmark probes a dataset.
use learned_secondary_index.Common.{
  ℕ, zero, suc, ◌-◌, ◌%◌, ◌^◌, ◌≤◌, ◌<◌, ◌≡◌, refl, ap, ltb, if◌then◌else◌, List, [], ◌∷◌, length,
  get_elem?, arith,
}
use learned_secondary_index.Common.Run.{Run, done, ◌>>=◌, read}
use learned_secondary_index.Common.Sorting.{length-perm, get_elem?-get_or, mem-get_or}
use learned_secondary_index.Common.{get_or}
use learned_secondary_index.Random.{Random}
use mathlib.Core.List.{Mem, Perm}
use mathlib.Core.List.Perm
use Prim.Native.String.{String}

pub data ProbingDistribution : Type 0 where
  uniform : ProbingDistribution
  exponential : ProbingDistribution

unfoldable pub name : ProbingDistribution → String
name uniform = "uniform"
name exponential = "exponential"

-- a `size_t` as the 32 bits of an `int`
unfoldable narrow : ℕ → ℕ
narrow n = n % 2 ^ 32

-- the 32 bits of an `int` as a `size_t`, which an index is: a negative number is extended by ones
unfoldable sign_extend : ℕ → ℕ
sign_extend w = if ltb w (2 ^ 31) then w else 2 ^ 64 - (2 ^ 32 - w)

-- the number of keys up to which every draw has a meaning: an `int` holds the last index, or a
-- `double` holds it exactly
abbrev pub limit : ProbingDistribution → ℕ
limit uniform = 2 ^ 31
limit exponential = 2 ^ 53

module _ (r : Random) where
  -- `for (i = 0; i < size; i++) probing_set[i] = dataset[draw(rng)]`
  unfoldable draw_all : (draw : r.Rng → ℕ × r.Rng) → List ℕ → (rounds : ℕ) → r.Rng → Run (List ℕ)
  draw_all draw dataset zero g = done []
  draw_all draw dataset (suc rounds) g =
      let (i, g') = draw g in
      do x ← read (get_elem? dataset i); rest ← draw_all draw dataset rounds g'; done (x ∷ rest)

  -- `dist(rng)` for `std::uniform_int_distribution<> dist(0, size - 1)`, as an index
  unfoldable draw_uniform : (size : ℕ) → r.Rng → ℕ × r.Rng
  unfolding narrow sign_extend
  draw_uniform size g = let (i, g') = r.uniform_int 0 (narrow (size - 1)) g in (sign_extend i, g')

  unfoldable generate_nonempty : List ℕ → ProbingDistribution → r.Rng → Run (List ℕ)
  unfolding draw_all draw_uniform
  generate_nonempty dataset uniform g =
      draw_all (draw_uniform (length dataset)) dataset (length dataset) g
  generate_nonempty dataset exponential g =
      let (shuffled, g') = r.shuffle dataset g in
      draw_all (r.exponential (length shuffled - 1)) shuffled (length dataset) g'

  -- `rng` is seeded by a random device
  unfoldable pub generate_probing_set : List ℕ → ProbingDistribution → r.Rng → Run (List ℕ)
  unfolding generate_nonempty
  generate_probing_set [] distribution g = done []
  generate_probing_set (x ∷ xs) distribution g = generate_nonempty (x ∷ xs) distribution g

  -- Every probe is in the dataset.
  abbrev pub ProbesOf : List ℕ → List ℕ → Type 0
  ProbesOf dataset [] = Unit
  ProbesOf dataset (x ∷ xs) = Mem x dataset × ProbesOf dataset xs

  draw_all_lem :
      (draw : r.Rng → ℕ × r.Rng) (dataset : List ℕ)
      → ((g : r.Rng) → (draw g).0 < length dataset)
      → (rounds : ℕ) (g : r.Rng)
      → (probes : List ℕ) × (draw_all draw dataset rounds g ≡ done probes)
        × (length probes ≡ rounds)
        × ProbesOf dataset probes
  unfolding draw_all
  draw_all_lem draw dataset bound zero g = ([], refl, refl, tt)
  draw_all_lem draw dataset bound (suc rounds) g =
      let (probes, drawn, count, within) = draw_all_lem draw dataset bound rounds (draw g).1 in
      let here = get_elem?-get_or dataset (draw g).0 0 (bound g) in
      (
        get_or dataset (draw g).0 0 ∷ probes,
        rw (here, drawn) refl,
        ap suc count,
        (mem-get_or dataset (draw g).0 0 (bound g), within),
      )

  draw_uniform-lt :
      (size : ℕ) (g : r.Rng) → 0 < size → size ≤ limit uniform → (draw_uniform size g).0 < size
  unfolding draw_uniform narrow sign_extend
  draw_uniform-lt size g pos small =
      let same : (size - 1) % 2 ^ 32 ≡ size - 1 = omega arith in
      rw same (ground (arith, r.uniform_int_bounds 0 (size - 1) g (omega arith) (omega arith)))

  ProbesOf-perm :
      (dataset shuffled : List ℕ) (probes : List ℕ)
      → Perm shuffled dataset
      → ProbesOf shuffled probes
      → ProbesOf dataset probes
  ProbesOf-perm dataset shuffled [] p w = tt
  ProbesOf-perm dataset shuffled (x ∷ xs) p w =
      ((Perm.mem_iff p).0 w.0, ProbesOf-perm dataset shuffled xs p w.1)

  -- For a dataset of at most 2 ^ 31 keys with the uniform and 2 ^ 53 with the exponential
  -- distribution, a probing set has the size of the dataset and holds keys of the dataset only,
  -- and no draw is out of range.
  pub generate_probing_set-ProbesOf :
      (dataset : List ℕ) (distribution : ProbingDistribution) (g : r.Rng)
      → length dataset ≤ limit distribution
      → (probes : List ℕ) × (generate_probing_set dataset distribution g ≡ done probes)
        × (length probes ≡ length dataset)
        × ProbesOf dataset probes
  unfolding generate_probing_set
  generate_probing_set-ProbesOf [] distribution g small = ([], refl, refl, tt)
  generate_probing_set-ProbesOf (x ∷ xs) uniform g small =
      draw_all_lem (draw_uniform (length (x ∷ xs))) (x ∷ xs)
        (λ g'. draw_uniform-lt (length (x ∷ xs)) g' (omega arith) small) (length (x ∷ xs)) g
  generate_probing_set-ProbesOf (x ∷ xs) exponential g small =
      let shuffled = (r.shuffle (x ∷ xs) g).0 in
      let p = r.shuffle-perm (x ∷ xs) g in
      let same : length shuffled ≡ suc (length xs) = length-perm p in
      let (probes, drawn, count, within) =
        draw_all_lem (r.exponential (length shuffled - 1)) shuffled
          (λ g'. omega (arith, r.exponential-le (length shuffled - 1) g' (omega arith)))
          (length (x ∷ xs)) (r.shuffle (x ∷ xs) g).1 in
      (probes, drawn, count, ProbesOf-perm (x ∷ xs) shuffled probes p within)
