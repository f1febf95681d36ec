-- ===== src/Lsi/PermIter.antt =====
-- `PermIter` (include/lsi.hpp): a position in the permutation vector of an index, which yields the
-- displacement stored there.
use learned_secondary_index.Common.{ℕ, Bool, not, ltb, ◌==◌, ◌&&◌, ◌||◌}
use learned_secondary_index.Common.Word.{add64, sub64}
use learned_secondary_index.Common.Run.{Run, done, ◌>>=◌}
use learned_secondary_index.PermVector.{PermVector, Value, deserialize, perm_eq, perm_ne}
use learned_secondary_index.Config.{Config}

module _ (c : Config) where
  pub record PermIter : Type 0 where
    pub index : ℕ
    pub perm_vector : PermVector c.packing

  unfoldable pub value : PermIter → Run Value
  value i = deserialize c.packing c.hasher c.fingerprint_size i.perm_vector i.index

  -- `*it`
  unfoldable pub deref : PermIter → Run ℕ
  unfolding value
  deref i = do v ← value i; done v.index

  -- `++it`
  unfoldable pub next : PermIter → PermIter
  next i = record i { index = add64 i.index 1 }

  -- `it++`: the iterator afterwards, and the result
  unfoldable pub post_next : PermIter → PermIter × PermIter
  unfolding next
  post_next i = (next i, i)

  -- `it += n`, and `it + n`
  unfoldable pub plus : PermIter → ℕ → PermIter
  plus i n = record i { index = add64 i.index n }

  unfoldable pub minus : PermIter → ℕ → PermIter
  minus i n = record i { index = sub64 i.index n }

  unfoldable pub distance : PermIter → PermIter → ℕ
  distance a b = sub64 a.index b.index

  unfoldable pub before : PermIter → PermIter → Bool
  before a b = ltb a.index b.index

  unfoldable pub not_before : PermIter → PermIter → Bool
  unfolding before
  not_before a b = not (before a b)

  unfoldable pub iter_eq : PermIter → PermIter → Bool
  iter_eq a b = a.index == b.index && perm_eq c.packing a.perm_vector b.perm_vector

  unfoldable pub iter_ne : PermIter → PermIter → Bool
  iter_ne a b = not (a.index == b.index) || perm_ne c.packing a.perm_vector b.perm_vector
