-- ===== src/Datasets/Laws.antt =====
-- What `dataset::load_cached` (src/support/datasets.hpp) keeps and returns.
use learned_secondary_index.Common.{
  ℕ, ◌≡◌, ◌≢◌, refl, ◌∙◌, ◌==◌, none, some, List, [], ◌∷◌, map, arith, ◌&&◌, Option, Option-cases,
  Bool-cases, inl, inr,
}
use learned_secondary_index.Random.{Random}
use mathlib.Core.Path.{subst}
use learned_secondary_index.Datasets.Parse.{Load}
use learned_secondary_index.Datasets.Cache.{
  DatasetId, same_id, sentinel, Fetch, fetched, Cached, find, drop_sentinel, Store, keep, from_file,
  generate, load_cached, sequential, gapped_10, uniform, fb, osm, wiki, normal, books, source,
  sample, from_source, from_gaps,
}
use mathlib.Core.List.{Perm, Mem, mem-map, not-mem-nil}
use mathlib.Core.HLevel.{Π_prop, ⊥_prop}
use mathlib.Core.List.Perm
use mathlib.Core.Logic.{∥∥₁_elim}

module _ (r : Random) (sort : List ℕ → List ℕ) (file : DatasetId → Load) where
  find-keep :
      (id : DatasetId) (size : ℕ) (ds : List ℕ) (s : Store r sort file) (k : ℕ) (ks : List ℕ)
      (s' : Store r sort file)
      → keep r sort file id size ds s ≡ (fetched (k ∷ ks), s')
      → find id size s'.datasets ≡ some (k ∷ ks)
  unfolding keep find
  find-keep id size ds s k ks s' e = ground arith

  find-from_source :
      (id : DatasetId) (size : ℕ) (s : Store r sort file)
      (from : Option (List ℕ × Store r sort file)) (k : ℕ) (ks : List ℕ) (s' : Store r sort file)
      → from_source r sort file id size s from ≡ (fetched (k ∷ ks), s')
      → find id size s'.datasets ≡ some (k ∷ ks)
  unfolding from_source
  find-from_source id size s none k ks s' e = ground arith
  find-from_source id size s (some ([], t)) k ks s' e = ground arith
  find-from_source id size s (some (x ∷ xs, t)) k ks s' e =
      find-keep id size (sample (x ∷ xs) size) t k ks s' e

  find-from_gaps :
      (size : ℕ) (s : Store r sort file) (from : Option (List ℕ × r.Rng)) (k : ℕ) (ks : List ℕ)
      (s' : Store r sort file)
      → from_gaps r sort file size s from ≡ (fetched (k ∷ ks), s')
      → find gapped_10 size s'.datasets ≡ some (k ∷ ks)
  unfolding from_gaps
  find-from_gaps size s none k ks s' e = ground arith
  find-from_gaps size s (some (ds, g)) k ks s' e = find-keep gapped_10 size ds _ k ks s' e

  -- what `generate` returns stands in the cache that it leaves
  find-generate :
      (fuel : ℕ) (id : DatasetId) (size : ℕ) (s : Store r sort file) (k : ℕ) (ks : List ℕ)
      (s' : Store r sort file)
      → generate r sort file fuel id size s ≡ (fetched (k ∷ ks), s')
      → find id size s'.datasets ≡ some (k ∷ ks)
  unfolding generate from_file
  find-generate fuel sequential size s k ks s' e = find-keep sequential size _ s k ks s' e
  find-generate fuel gapped_10 size s k ks s' e = find-from_gaps size s _ k ks s' e
  find-generate fuel uniform size s k ks s' e = find-keep uniform size _ _ k ks s' e
  find-generate fuel normal size s k ks s' e = find-keep normal size _ _ k ks s' e
  find-generate fuel fb size s k ks s' e = find-from_source fb size s _ k ks s' e
  find-generate fuel osm size s k ks s' e = find-from_source osm size s _ k ks s' e
  find-generate fuel wiki size s k ks s' e = find-from_source wiki size s _ k ks s' e
  find-generate fuel books size s k ks s' e = find-from_source books size s _ k ks s' e

  -- A dataset that `load_cached` returned, and that is not empty, is returned again by the same
  -- call on the store it left, which changes nothing: it draws no random number and reads no
  -- file.
  pub load_cached_again :
      (fuel fuel' : ℕ) (id : DatasetId) (size : ℕ) (s s' : Store r sort file) (k : ℕ) (ks : List ℕ)
      → load_cached r sort file fuel id size s ≡ (fetched (k ∷ ks), s')
      → load_cached r sort file fuel' id size s' ≡ (fetched (k ∷ ks), s')
  unfolding load_cached
  load_cached_again fuel fuel' id size s s' k ks e = elim (Option-cases (find id size s.datasets)) [
    | inl new ↦
        let kept = find-generate fuel id size s k ks s' (rw (new, load_cached) at e) in
        ground (arith, kept)
    | inr (keys, old) ↦ ground (arith, old)
  ]

  -- No key is the sentinel.
  abbrev pub NoSentinel : List ℕ → Type 0
  NoSentinel keys = (x : ℕ) → Mem x keys → x ≢ sentinel

  abbrev pub CleanCache : List Cached → Type 0
  CleanCache [] = Unit
  CleanCache (c ∷ cs) = NoSentinel c.keys × CleanCache cs

  abbrev pub CleanFetch : Fetch → Type 0
  CleanFetch (fetched keys) = NoSentinel keys
  CleanFetch _ = Unit

  -- a call leaves a clean cache, and its result is clean
  abbrev IsClean : Fetch × Store r sort file → Type 0
  IsClean (result, s) = CleanFetch result × CleanCache s.datasets

  drop_sentinel_ne : (y : ℕ) → drop_sentinel y ≢ sentinel
  unfolding drop_sentinel
  drop_sentinel_ne y = ground arith

  module _ (sort-perm : (l : List ℕ) → Perm (sort l) l) where
    drop_sentinel-NoSentinel : (ds : List ℕ) → NoSentinel (sort (map drop_sentinel ds))
    drop_sentinel-NoSentinel ds x m =
        ∥∥₁_elim (mem-map.0 ((Perm.mem_iff (sort-perm (map drop_sentinel ds))).0 m))
          (Π_prop λ e. ⊥_prop) λ (y, member, same) e. drop_sentinel_ne y (same ∙ e)

    keep-IsClean :
        (id : DatasetId) (size : ℕ) (ds : List ℕ) (s : Store r sort file)
        → CleanCache s.datasets
        → IsClean (keep r sort file id size ds s)
    unfolding keep
    keep-IsClean id size ds s c = (drop_sentinel-NoSentinel ds, (drop_sentinel-NoSentinel ds, c))

    find-NoSentinel :
        (id : DatasetId) (size : ℕ) (cs : List Cached) (keys : List ℕ)
        → CleanCache cs
        → find id size cs ≡ some keys
        → NoSentinel keys
    unfolding find
    find-NoSentinel id size [] keys c e = absurd (ground arith)
    find-NoSentinel id size (d ∷ cs) keys c e =
        elim (Bool-cases (same_id d.id id && d.size == size)) [
          | inl hit ↦
              let same : some d.keys ≡ some keys = rw hit at e in
              let k : d.keys ≡ keys = cc in subst NoSentinel k c.0
          | inr miss ↦ find-NoSentinel id size cs keys c.1 (rw miss at e)
        ]

    pub source-datasets :
        (id : DatasetId) (s t : Store r sort file) (keys : List ℕ)
        → source r sort file id s ≡ some (keys, t)
        → t.datasets ≡ s.datasets
    unfolding source
    source-datasets id s t keys e = ground arith

    from_source-IsClean :
        (id : DatasetId) (size : ℕ) (s : Store r sort file)
        (from : Option (List ℕ × Store r sort file))
        → CleanCache s.datasets
        → ((keys : List ℕ) (t : Store r sort file)
            → from ≡ some (keys, t)
            → t.datasets ≡ s.datasets)
        → IsClean (from_source r sort file id size s from)
    unfolding from_source
    from_source-IsClean id size s none c same = (tt, c)
    from_source-IsClean id size s (some ([], t)) c same =
        (λ x m. absurd (not-mem-nil m), rw (same [] t refl) c)
    from_source-IsClean id size s (some (x ∷ xs, t)) c same =
        keep-IsClean id size (sample (x ∷ xs) size) t (rw (same (x ∷ xs) t refl) c)

    from_gaps-IsClean :
        (size : ℕ) (s : Store r sort file) (from : Option (List ℕ × r.Rng))
        → CleanCache s.datasets
        → IsClean (from_gaps r sort file size s from)
    unfolding from_gaps
    from_gaps-IsClean size s none c = (tt, c)
    from_gaps-IsClean size s (some (ds, g)) c = keep-IsClean gapped_10 size ds _ c

    from_file-IsClean :
        (id : DatasetId) (size : ℕ) (s : Store r sort file)
        → CleanCache s.datasets
        → IsClean (from_file r sort file id size s)
    unfolding from_file
    from_file-IsClean id size s c =
        from_source-IsClean id size s (source r sort file id s) c
          (λ keys t e. source-datasets id s t keys e)

    generate-IsClean :
        (fuel : ℕ) (id : DatasetId) (size : ℕ) (s : Store r sort file)
        → CleanCache s.datasets
        → IsClean (generate r sort file fuel id size s)
    unfolding generate
    generate-IsClean fuel sequential size s c = keep-IsClean sequential size _ s c
    generate-IsClean fuel gapped_10 size s c = from_gaps-IsClean size s _ c
    generate-IsClean fuel uniform size s c = keep-IsClean uniform size _ _ c
    generate-IsClean fuel normal size s c = keep-IsClean normal size _ _ c
    generate-IsClean fuel fb size s c = from_file-IsClean fb size s c
    generate-IsClean fuel osm size s c = from_file-IsClean osm size s c
    generate-IsClean fuel wiki size s c = from_file-IsClean wiki size s c
    generate-IsClean fuel books size s c = from_file-IsClean books size s c

    -- From a cache without the largest 64 bit number, `load_cached` returns a dataset without it
    -- and leaves a cache without it, for every dataset and on every branch. The sort permutes its
    -- argument.
    pub load_cached-clean :
        (fuel : ℕ) (id : DatasetId) (size : ℕ) (s s' : Store r sort file) (result : Fetch)
        → CleanCache s.datasets
        → load_cached r sort file fuel id size s ≡ (result, s')
        → CleanFetch result × CleanCache s'.datasets
    unfolding load_cached
    load_cached-clean fuel id size s s' result c e = elim (Option-cases (find id size s.datasets)) [
      | inl new ↦ subst IsClean (rw (new, load_cached) at e) (generate-IsClean fuel id size s c)
      | inr (keys, old) ↦
          let same : (fetched keys, s) ≡ (result, s') = rw (old, load_cached) at e in
          let clean : IsClean (fetched keys, s) =
            (find-NoSentinel id size s.datasets keys c old, c) in
          subst IsClean same clean
    ]
