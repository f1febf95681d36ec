-- ===== src/Benchmarks.antt =====
-- src/benchmarks.hpp: the two benchmark drivers, over any index with the interface that they use.
pub mod Equality
pub mod Lsi
pub mod Lowerbound
use learned_secondary_index.Common.{
  ℕ, zero, suc, ◌+◌, ◌-◌, ◌≤◌, ◌<◌, ◌≡◌, ltb, leb, ◌==◌, ◌&&◌, not, if◌then◌else◌, Bool, true,
  false, Option, some, List, [], ◌∷◌, length, get_elem?, take, drop,
}
use learned_secondary_index.Common.Run.{Run, done, out_of_fuel, ◌>>=◌, read}
use learned_secondary_index.Random.{Random}
use learned_secondary_index.ProbingSet.{ProbingDistribution, generate_probing_set}

-- The template parameter `Index`: its constructor, its lookups and its iterators.
pub record BenchIndex : Type 1 where
  pub Index : Type 0
  pub It : Type 0
  pub construct : List ℕ → Run Index
  pub lookup : (lowerbound : Bool) → List ℕ → ℕ → Index → Run (Index × It)
  pub is_end : Index → It → Bool
  pub deref : It → Run ℕ

-- A run of a benchmark ends by an exception, or with the number of errors that it counted.
pub data Report : Type 0 where
  finished : Report
  empty_dataset : Report
  kaputt : ℕ → Report

-- `while (i >= probing_set.size()) i -= probing_set.size()`
unfoldable pub wrap : (fuel i size : ℕ) → Run ℕ
wrap zero i size = out_of_fuel
wrap (suc fuel) i size =
    let again = wrap fuel (i - size) size in if leb size i then again else done i

abbrev pub report : ℕ → Report
report errors = if ltb 0 errors then kaputt errors else finished

module _ (x : BenchIndex) (dataset probing_set : List ℕ) where
  -- the loop `for (auto _ : state)` of EqualityProbe
  unfoldable pub equality_loop : (iterations i errors : ℕ) → x.Index → Run ℕ
  equality_loop zero i errors index = done errors
  equality_loop (suc iterations) i errors index = do
    at ← wrap (suc i) i (length probing_set)
    probed ← read (get_elem? probing_set at)
    (index', it) ← x.lookup false dataset probed index
    d ← x.deref it
    found ← read (get_elem? dataset d)
    equality_loop iterations (at + 1) (if found == probed then errors else errors + 1) index'

  -- whether `lb_iter != index.end() && dataset[*lb_iter] < probed`
  unfoldable pub is_error : x.Index → x.It → ℕ → Run Bool
  is_error index it probed =
      let inside = (do d ← x.deref it; k ← read (get_elem? dataset d); done (ltb k probed)) in
      if x.is_end index it then done false else inside

  -- the loop of LowerboundLookup; the index was built on the first `insert_end` elements
  unfoldable pub lowerbound_loop : (insert_end iterations i errors : ℕ) → x.Index → Run ℕ
  lowerbound_loop insert_end zero i errors index = done errors
  lowerbound_loop insert_end (suc iterations) i errors index = do
    at ← wrap (suc i) i (length probing_set)
    probed ← read (get_elem? probing_set at)
    (index', it) ← x.lookup true (take insert_end dataset) probed index
    wrong ← is_error index' it probed
    lowerbound_loop insert_end iterations (at + 1) (if wrong then errors + 1 else errors) index'

module _ (x : BenchIndex) (r : Random) where
  -- a loaded dataset that is not empty, with the rest of EqualityProbe
  unfoldable pub equality_run :
      (dataset probing_set : List ℕ) (iterations : ℕ) (shuffled : List ℕ) → Run Report
  equality_run dataset probing_set iterations shuffled = do
    index ← x.construct shuffled
    errors ← equality_loop x shuffled probing_set iterations 0 0 index
    done (report errors)

  unfoldable pub equality_probe :
      (dataset : List ℕ) (distribution : ProbingDistribution) (iterations : ℕ) (device g : r.Rng)
      → Run Report
  equality_probe [] distribution iterations device g = done empty_dataset
  equality_probe (k ∷ ks) distribution iterations device g = do
    probing_set ← generate_probing_set r (k ∷ ks) distribution device
    equality_run (k ∷ ks) probing_set iterations (r.shuffle (k ∷ ks) g).0

  -- `insert_end` is nine tenths of the size, rounded down in floating point
  unfoldable pub lowerbound_lookup :
      (insert_end : ℕ → ℕ) (dataset : List ℕ) (iterations : ℕ) (g : r.Rng) → Run Report
  lowerbound_lookup insert_end [] iterations g = done empty_dataset
  lowerbound_lookup insert_end (k ∷ ks) iterations g =
      let (dataset, g') = r.shuffle (k ∷ ks) g in
      let split = insert_end (length dataset) in
      let (probing_set, g'') = r.shuffle (drop split dataset) g' in
      do
        index ← x.construct (take split dataset)
        errors ← lowerbound_loop x dataset probing_set split iterations 0 0 index
        done (report errors)
