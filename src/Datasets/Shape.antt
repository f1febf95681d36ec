-- ===== src/Datasets/Shape.antt =====
-- The size and the order of what `dataset::load_cached` (src/support/datasets.hpp) returns and keeps.
use learned_secondary_index.Common.{
  ℕ, zero, suc, ◌-◌, ◌^◌, ◌≤◌, ◌≡◌, refl, ap, ◌∙◌, ◌==◌, ◌&&◌, none, some, List, [], ◌∷◌, map,
  length, arith, Option, Option-cases, Bool-cases, inl, inr, ◌⊎◌,
}
use learned_secondary_index.Common.Sorting.{length-perm}
use learned_secondary_index.Random.{Random}
use learned_secondary_index.Datasets.Laws.{source-datasets}
use learned_secondary_index.Datasets.Parse.{Load}
use learned_secondary_index.Datasets.Cache.{
  DatasetId, same_id, Fetch, fetched, failed, out_of_draws, Cached, find, drop_sentinel, Store,
  keep, from_file, generate, load_cached, sequential, gapped_10, uniform, fb, osm, wiki, normal,
  books, source, sample, from_source, from_gaps, sequential_from, gap, gapped, draws,
}
use mathlib.Core.List.{Perm}
use mathlib.Core.Path.{subst}

abbrev pub AllFrom : ℕ → List ℕ → Type 0
AllFrom x [] = Unit
AllFrom x (y ∷ ys) = (x ≤ y) × AllFrom x ys

abbrev pub Ordered : List ℕ → Type 0
Ordered [] = Unit
Ordered (x ∷ xs) = AllFrom x xs × Ordered xs

-- a dataset of `size` keys in ascending order
abbrev pub IsDataset : (size : ℕ) → List ℕ → Type 0
IsDataset size keys = Ordered keys × (length keys ≡ size)

-- every dataset of the cache is one of its size
abbrev pub IsCache : List Cached → Type 0
IsCache [] = Unit
IsCache (c ∷ cs) = IsDataset c.size c.keys × IsCache cs

-- what is returned is a dataset of the size, or empty
abbrev pub FetchOf : (size : ℕ) → Fetch → Type 0
FetchOf size (fetched keys) = (keys ≡ []) ⊎ IsDataset size keys
FetchOf size failed = Unit
FetchOf size out_of_draws = Unit

length-map : (f : ℕ → ℕ) (l : List ℕ) → length (map f l) ≡ length l
length-map f [] = refl
length-map f (x ∷ l) = ap suc (length-map f l)

length-sequential_from : (i n : ℕ) → length (sequential_from i n) ≡ n
unfolding sequential_from
length-sequential_from i zero = refl
length-sequential_from i (suc n) = ap suc (length-sequential_from (suc i) n)

length-sample : (xs : List ℕ) (n : ℕ) → length (sample xs n) ≡ n
unfolding sample
length-sample xs zero = refl
length-sample [] (suc n) = ap suc (length-sample [] n)
length-sample (x ∷ xs) (suc n) = ap suc (length-sample xs n)

find-IsDataset :
    (id : DatasetId) (size : ℕ) (cs : List Cached) (keys : List ℕ)
    → IsCache cs
    → find id size cs ≡ some keys
    → IsDataset size keys
unfolding find
find-IsDataset id size [] keys c e = absurd (ground arith)
find-IsDataset id size (d ∷ cs) keys c e = elim (Bool-cases (same_id d.id id && d.size == size)) [
  | inl hit ↦
      let same : some d.keys ≡ some keys = rw hit at e in
      let k : d.keys ≡ keys = cc in
      let n : d.size ≡ size = ground arith in subst (IsDataset size) k (c.0.0, c.0.1 ∙ n)
  | inr miss ↦ find-IsDataset id size cs keys c.1 (rw miss at e)
]

module _ (r : Random) (sort : List ℕ → List ℕ) (file : DatasetId → Load) where
  length-draws :
      (draw : r.Rng → ℕ × r.Rng) (rounds : ℕ) (g : r.Rng)
      → length (draws r sort file draw rounds g).0 ≡ rounds
  unfolding draws
  length-draws draw zero g = refl
  length-draws draw (suc rounds) g = ap suc (length-draws draw rounds (draw g).1)

  length-gapped :
      (fuel rounds num : ℕ) (g g' : r.Rng) (ds : List ℕ)
      → gapped r sort file fuel rounds num g ≡ some (ds, g')
      → length ds ≡ rounds
  unfolding gapped
  length-gapped fuel zero num g g' ds e = ground arith
  length-gapped fuel (suc rounds) num g g' ds e = elim (Option-cases (gap r sort file fuel num g)) [
    | inl stopped ↦ absurd (ground (arith, stopped))
    | inr ((num', g''), drawn) ↦ elim (Option-cases (gapped r sort file fuel rounds num' g'')) [
      | inl stopped ↦ absurd (ground (arith, drawn, stopped))
      | inr ((rest, g'''), went) ↦
          let n = length-gapped fuel rounds num' g'' g''' rest went in
          let same : ds ≡ num' ∷ rest = ground (arith, drawn, went) in rw same (ap suc n)
    ]
  ]

  abbrev IsShaped : ℕ → Fetch × Store r sort file → Type 0
  IsShaped size (result, s) = FetchOf size result × IsCache s.datasets

  module _ (sort-perm : (l : List ℕ) → Perm (sort l) l)
      (sort-Ordered : (l : List ℕ) → Ordered (sort l)) where
    keep-IsShaped :
        (id : DatasetId) (size : ℕ) (ds : List ℕ) (s : Store r sort file)
        → length ds ≡ size
        → IsCache s.datasets
        → IsShaped size (keep r sort file id size ds s)
    unfolding keep
    keep-IsShaped id size ds s n c =
        let keys = sort (map drop_sentinel ds) in
        let shape : IsDataset size keys = (
          sort-Ordered (map drop_sentinel ds),
          length-perm (sort-perm (map drop_sentinel ds)) ∙ (length-map drop_sentinel ds ∙ n),
        ) in
        (inr shape, (shape, c))

    from_source-IsShaped :
        (id : DatasetId) (size : ℕ) (s : Store r sort file)
        (from : Option (List ℕ × Store r sort file))
        → IsCache s.datasets
        → ((keys : List ℕ) (t : Store r sort file)
            → from ≡ some (keys, t)
            → t.datasets ≡ s.datasets)
        → IsShaped size (from_source r sort file id size s from)
    unfolding from_source
    from_source-IsShaped id size s none c same = (tt, c)
    from_source-IsShaped id size s (some ([], t)) c same = (inl refl, rw (same [] t refl) c)
    from_source-IsShaped id size s (some (x ∷ xs, t)) c same =
        keep-IsShaped id size (sample (x ∷ xs) size) t (length-sample (x ∷ xs) size)
          (rw (same (x ∷ xs) t refl) c)

    from_file-IsShaped :
        (id : DatasetId) (size : ℕ) (s : Store r sort file)
        → IsCache s.datasets
        → IsShaped size (from_file r sort file id size s)
    unfolding from_file
    from_file-IsShaped id size s c =
        from_source-IsShaped id size s (source r sort file id s) c
          (λ keys t e. source-datasets r sort file sort-perm id s t keys e)

    from_gaps-IsShaped :
        (size : ℕ) (s : Store r sort file) (from : Option (List ℕ × r.Rng))
        → ((ds : List ℕ) (g : r.Rng) → from ≡ some (ds, g) → length ds ≡ size)
        → IsCache s.datasets
        → IsShaped size (from_gaps r sort file size s from)
    unfolding from_gaps
    from_gaps-IsShaped size s none n c = (tt, c)
    from_gaps-IsShaped size s (some (ds, g)) n c = keep-IsShaped gapped_10 size ds _ (n ds g refl) c

    generate-IsShaped :
        (fuel : ℕ) (id : DatasetId) (size : ℕ) (s : Store r sort file)
        → IsCache s.datasets
        → IsShaped size (generate r sort file fuel id size s)
    unfolding generate
    generate-IsShaped fuel sequential size s c =
        keep-IsShaped sequential size _ s (length-sequential_from 0 size) c
    generate-IsShaped fuel gapped_10 size s c =
        from_gaps-IsShaped size s _ (λ ds g e. length-gapped fuel size 0 s.rng g ds e) c
    generate-IsShaped fuel uniform size s c =
        keep-IsShaped uniform size _ _ (length-draws (r.uniform 0 (2 ^ 50 - 1)) size s.rng) c
    generate-IsShaped fuel normal size s c =
        keep-IsShaped normal size _ _ (length-draws r.normal size s.rng) c
    generate-IsShaped fuel fb size s c = from_file-IsShaped fb size s c
    generate-IsShaped fuel osm size s c = from_file-IsShaped osm size s c
    generate-IsShaped fuel wiki size s c = from_file-IsShaped wiki size s c
    generate-IsShaped fuel books size s c = from_file-IsShaped books size s c

    -- From a cache whose datasets are in ascending order and of the sizes under which they are
    -- kept, a call of `load_cached` that returns a dataset returns one in ascending order and of
    -- the size that was asked for, or an empty one, and leaves such a cache, for every dataset
    -- and on every branch. The sort permutes its argument and returns it in ascending order.
    pub load_cached-IsDataset :
        (fuel : ℕ) (id : DatasetId) (size : ℕ) (s s' : Store r sort file) (result : Fetch)
        → IsCache s.datasets
        → load_cached r sort file fuel id size s ≡ (result, s')
        → FetchOf size result × IsCache s'.datasets
    unfolding load_cached
    load_cached-IsDataset fuel id size s s' result c e =
        elim (Option-cases (find id size s.datasets)) [
          | inl new ↦
              subst (IsShaped size) (rw (new, load_cached) at e)
                (generate-IsShaped fuel id size s c)
          | inr (keys, old) ↦
              let same : (fetched keys, s) ≡ (result, s') = rw (old, load_cached) at e in
              let shape : IsShaped size (fetched keys, s) =
                (inr (find-IsDataset id size s.datasets keys c old), c) in
              subst (IsShaped size) same shape
        ]
