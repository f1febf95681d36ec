-- ===== src/Datasets/Cache.antt =====
-- `dataset::ID`, `dataset::name` and `dataset::load_cached` (src/support/datasets.hpp).
use learned_secondary_index.Common.{
  ℕ, zero, suc, ◌+◌, ◌-◌, ◌^◌, ltb, ◌==◌, ◌&&◌, if◌then◌else◌, Bool, Option, none, some, List, [],
  ◌∷◌, map,
}
use learned_secondary_index.Common.Word.{word}
use learned_secondary_index.Random.{Random}
use learned_secondary_index.Datasets.Parse.{Load, loaded, thrown, faulted}
use Prim.Native.String.{String}

pub data DatasetId : Type 0 where
  sequential gapped_10 uniform fb osm wiki normal books : DatasetId

unfoldable pub name : DatasetId → String
name sequential = "seq"
name gapped_10 = "gap_10"
name uniform = "uniform"
name fb = "fb"
name osm = "osm"
name wiki = "wiki"
name normal = "normal"
name books = "books"

-- the number of an id in the enumeration
abbrev pub code_of : DatasetId → ℕ
code_of sequential = 0
code_of gapped_10 = 1
code_of uniform = 2
code_of fb = 3
code_of osm = 4
code_of wiki = 5
code_of normal = 6
code_of books = 7

abbrev pub same_id : DatasetId → DatasetId → Bool
same_id a b = code_of a == code_of b

-- `std::numeric_limits<std::uint64_t>::max()`
abbrev pub sentinel : ℕ
sentinel = word - 1

-- What `load_cached` comes to, with the result of its last branches.
pub data Fetch : Type 0 where
  fetched : List ℕ → Fetch
  failed : Fetch
  out_of_draws : Fetch

-- one dataset of the nested map `datasets`
pub record Cached : Type 0 where
  pub id : DatasetId
  pub size : ℕ
  pub keys : List ℕ

-- `datasets.find(id)` and `find(dataset_size)` in it
unfoldable pub find : DatasetId → ℕ → List Cached → Option (List ℕ)
find id size [] = none
find id size (c ∷ cs) = if same_id c.id id && c.size == size then some c.keys else find id size cs

-- `ds[i] = i + 20000`, with `n` elements from `i` on
unfoldable pub sequential_from : (i n : ℕ) → List ℕ
sequential_from i zero = []
sequential_from i (suc n) = (i + 20000) ∷ sequential_from (suc i) n

-- `for (i < ds_fb.size() && i < ds.size()) ds[i] = ds_fb[i]` into a vector of zeros
unfoldable pub sample : List ℕ → (size : ℕ) → List ℕ
sample source zero = []
sample [] (suc n) = 0 ∷ sample [] n
sample (x ∷ xs) (suc n) = x ∷ sample xs n

-- `if (key == max) key--`
unfoldable pub drop_sentinel : ℕ → ℕ
drop_sentinel key = if key == sentinel then key - 1 else key

module _ (r : Random) (sort : List ℕ → List ℕ) (file : DatasetId → Load) where
  -- the static variables of `load_cached`; the file datasets are shuffled when they are loaded
  pub record Store : Type 0 where
    pub datasets : List Cached
    pub sources : DatasetId → List ℕ
    pub rng : r.Rng

  -- `do num++; while (dist(rng) < 10000)`, with fuel for the draws
  unfoldable pub gap : (fuel num : ℕ) → r.Rng → Option (ℕ × r.Rng)
  gap zero num g = none
  gap (suc fuel) num g =
      let (x, g') = r.uniform 0 99999 g in
      let again = gap fuel (num + 1) g' in if ltb x 10000 then again else some (num + 1, g')

  unfoldable pub gapped : (fuel rounds num : ℕ) → r.Rng → Option (List ℕ × r.Rng)
  gapped fuel zero num g = some ([], g)
  gapped fuel (suc rounds) num g = elim (gap fuel num g) [
    | none ↦ none
    | some (num', g') ↦ elim (gapped fuel rounds num' g') [
      | none ↦ none
      | some (rest, g'') ↦ some (num' ∷ rest, g'')
    ]
  ]

  unfoldable pub draws : (r.Rng → ℕ × r.Rng) → (rounds : ℕ) → r.Rng → List ℕ × r.Rng
  draws draw zero g = ([], g)
  draws draw (suc rounds) g =
      let (x, g') = draw g in let (rest, g'') = draws draw rounds g' in (x ∷ rest, g'')

  -- the vector that a file dataset is sampled from, and the store that keeps it
  unfoldable pub source : DatasetId → Store → Option (List ℕ × Store)
  source id s = elim (s.sources id) [
    | x ∷ xs ↦ some (x ∷ xs, s)
    | [] ↦ elim (file id) [
      | loaded keys ↦
          let (shuffled, g) = r.shuffle keys s.rng in
          some (
            shuffled,
            record s { sources = λ i. if same_id i id then shuffled else s.sources i; rng = g },
          )
      | thrown ↦ none
      | faulted ↦ none
    ]
  ]

  -- the code behind the `switch`: no sentinel, sorted, kept in the cache
  unfoldable pub keep : DatasetId → ℕ → List ℕ → Store → Fetch × Store
  unfolding drop_sentinel
  keep id size ds s =
      let keys = sort (map drop_sentinel ds) in
      (
        fetched keys,
        record s { datasets = record { id = id; size = size; keys = keys } ∷ s.datasets },
      )

  -- a dataset that is sampled from a file; a file that does not exist gives no dataset
  unfoldable pub from_source : DatasetId → ℕ → Store → Option (List ℕ × Store) → Fetch × Store
  from_source id size s none = (failed, s)
  from_source id size s (some ([], s')) = (fetched [], s')
  from_source id size s (some (x ∷ xs, s')) = keep id size (sample (x ∷ xs) size) s'

  unfoldable pub from_file : DatasetId → ℕ → Store → Fetch × Store
  from_file id size s = from_source id size s (source id s)

  unfoldable pub from_gaps : ℕ → Store → Option (List ℕ × r.Rng) → Fetch × Store
  from_gaps size s none = (out_of_draws, s)
  from_gaps size s (some (ds, g)) = keep gapped_10 size ds (record s { rng = g })

  -- the `switch`, for a dataset that is not in the cache
  unfoldable pub generate : (fuel : ℕ) → DatasetId → ℕ → Store → Fetch × Store
  generate fuel sequential size s = keep sequential size (sequential_from 0 size) s
  generate fuel gapped_10 size s = from_gaps size s (gapped fuel size 0 s.rng)
  generate fuel uniform size s =
      let (ds, g) = draws (r.uniform 0 (2 ^ 50 - 1)) size s.rng in
      keep uniform size ds (record s { rng = g })
  generate fuel normal size s =
      let (ds, g) = draws r.normal size s.rng in keep normal size ds (record s { rng = g })
  generate fuel fb size s = from_file fb size s
  generate fuel osm size s = from_file osm size s
  generate fuel wiki size s = from_file wiki size s
  generate fuel books size s = from_file books size s

  unfoldable pub load_cached : (fuel : ℕ) → DatasetId → ℕ → Store → Fetch × Store
  load_cached fuel id size s = elim (find id size s.datasets) [
    | some keys ↦ (fetched keys, s)
    | none ↦ generate fuel id size s
  ]
