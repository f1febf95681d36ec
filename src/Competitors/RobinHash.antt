-- ===== src/Competitors/RobinHash.antt =====
-- src/competitors/hash.hpp: an index in a hash map (tsl::robin_map) from keys to displacements.
use learned_secondary_index.Common.{
  ℕ, suc, ◌+◌, ◌*◌, ◌/◌, ◌≡◌, refl, ◌==◌, if◌then◌else◌, Bool-cases, inl, inr, Option, none, some,
  List, [], ◌∷◌, length,
}
use learned_secondary_index.Common.Run.{Run, read}

-- `find` yields the value behind the iterator, and `none` for `end()`. `insert` does not overwrite.
pub record RobinMap : Type 1 where
  pub Map : Type 0
  pub empty : Map
  pub reserve : Map → ℕ → Map
  pub insert : Map → ℕ → ℕ → Map
  pub find : Map → ℕ → Option ℕ
  pub bucket_count : Map → ℕ
  pub find-empty : (key : ℕ) → find empty key ≡ none
  pub find-reserve : (m : Map) (n key : ℕ) → find (reserve m n) key ≡ find m key
  pub find-insert_old :
      (m : Map) (k d key old : ℕ) → find m key ≡ some old → find (insert m k d) key ≡ some old
  pub find-insert_new :
      (m : Map) (k d key : ℕ)
      → find m key ≡ none
      → find (insert m k d) key ≡ (if k == key then some d else none)

module _ (r : RobinMap) where
  -- `for (it = begin; it < end; it++) map_.insert({*it, i++})`
  unfoldable pub insert_all : r.Map → ℕ → List ℕ → r.Map
  insert_all m i [] = m
  insert_all m i (k ∷ ks) = insert_all (r.insert m k i) (suc i) ks

  unfoldable pub fit : List ℕ → r.Map → r.Map
  unfolding insert_all
  fit base m = insert_all (r.reserve m (4 * length base / 3)) 0 base

  unfoldable pub construct : List ℕ → r.Map
  unfolding fit
  construct base = fit base r.empty

  -- an iterator as the displacement behind it, and `none` for `end()`
  abbrev pub DisplacementIt : Type 0
  DisplacementIt = Option ℕ

  unfoldable pub end : r.Map → DisplacementIt
  end m = none

  -- `lookup`, for equality lookups only
  unfoldable pub lookup : r.Map → ℕ → DisplacementIt
  lookup m key = r.find m key

  -- `*it`
  unfoldable pub deref : DisplacementIt → Run ℕ
  deref it = read it

  unfoldable pub base_data_accesses : r.Map → ℕ
  base_data_accesses m = 0

  unfoldable pub false_positive_accesses : r.Map → ℕ
  false_positive_accesses m = 0

  unfoldable pub model_byte_size : (sizeof_key : ℕ) → r.Map → ℕ
  model_byte_size sizeof_key m = r.bucket_count m * (sizeof_key + 8)

  unfoldable pub perm_vector_byte_size : r.Map → ℕ
  perm_vector_byte_size m = 0

  unfoldable pub byte_size : (sizeof_key : ℕ) → r.Map → ℕ
  unfolding model_byte_size perm_vector_byte_size
  byte_size sizeof_key m = perm_vector_byte_size m + model_byte_size sizeof_key m

  -- the displacement of the first occurrence of a key, counted from `i`
  abbrev pub first_at : ℕ → List ℕ → ℕ → Option ℕ
  first_at i [] key = none
  first_at i (k ∷ ks) key = if k == key then some i else first_at (suc i) ks key

  insert_all_old :
      (ks : List ℕ) (i key d : ℕ) (m : r.Map)
      → r.find m key ≡ some d
      → r.find (insert_all m i ks) key ≡ some d
  unfolding insert_all
  insert_all_old [] i key d m e = e
  insert_all_old (k ∷ ks) i key d m e =
      insert_all_old ks (suc i) key d (r.insert m k i) (r.find-insert_old m k i key d e)

  insert_all_new :
      (ks : List ℕ) (i key : ℕ) (m : r.Map)
      → r.find m key ≡ none
      → r.find (insert_all m i ks) key ≡ first_at i ks key
  unfolding insert_all
  insert_all_new [] i key m e = e
  insert_all_new (k ∷ ks) i key m e = elim (Bool-cases (k == key)) [
    | inl same ↦ rw same (
        insert_all_old ks (suc i) key i (r.insert m k i)
          (rw same at (r.find-insert_new m k i key e)))
    | inr other ↦ rw other (
        insert_all_new ks (suc i) key (r.insert m k i)
          (rw other at (r.find-insert_new m k i key e)))
  ]

  -- A lookup in a RobinHash that is built on a range returns the first displacement at which the
  -- range holds the key, and `end()` if it does not hold it.
  pub lookup-construct :
      (base : List ℕ) (key : ℕ) → lookup (construct base) key ≡ first_at 0 base key
  unfolding lookup construct
  lookup-construct base key =
      insert_all_new base 0 key (r.reserve r.empty (4 * length base / 3))
        (rw (r.find-reserve, r.find-empty) refl)

  -- A key that a RobinHash holds keeps its displacement when the index is fitted to another
  -- range.
  pub lookup-fit_again :
      (base : List ℕ) (m : r.Map) (key d : ℕ)
      → lookup m key ≡ some d
      → lookup (fit base m) key ≡ some d
  unfolding lookup fit
  lookup-fit_again base m key d e =
      insert_all_old base 0 key d (r.reserve m (4 * length base / 3)) (rw r.find-reserve e)
