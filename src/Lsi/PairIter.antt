-- ===== src/Lsi/PairIter.antt =====
-- `PairIter` (include/lsi.hpp): an iterator over the pairs of a DisplacementVector that yields keys
-- or displacements and moves by `gap()` pairs at a time.
use learned_secondary_index.Common.{
  ℕ, ◌+◌, ◌-◌, ◌*◌, ◌/◌, Bool, if◌then◌else◌, ltb, ◌==◌, not, List, get_elem?, length,
}
use learned_secondary_index.Common.Run.{Run, done, ◌>>=◌, read}
use learned_secondary_index.Common.Sorting.{Pair}
use learned_secondary_index.PermVector.{ForwardIt}

-- `_iter` is a position in the vector. Two iterators are compared only over one vector.
pub record PairIter : Type 0 where
  pub cells : List Pair
  pub iter : ℕ
  pub skip : ℕ

unfoldable pub gap : PairIter → ℕ
gap i = i.skip + (if i.skip == 0 then 1 else 0)

unfoldable pub key : PairIter → Run ℕ
key i = do (k, d) ← read (get_elem? i.cells i.iter); done k

unfoldable pub displacement : PairIter → Run ℕ
displacement i = do (k, d) ← read (get_elem? i.cells i.iter); done d

-- `operator*` of `PairIter<first>`
unfoldable pub deref : Bool → PairIter → Run ℕ
unfolding key displacement
deref first i = if first then key i else displacement i

-- `++it`
unfoldable pub next : PairIter → PairIter
unfolding gap
next i = record i { iter = i.iter + gap i }

-- `it++`: the iterator afterwards, and the result
unfoldable pub post_next : PairIter → PairIter × PairIter
unfolding next
post_next i = (next i, i)

unfoldable pub plus : PairIter → ℕ → PairIter
unfolding gap
plus i n = record i { iter = i.iter + n * gap i }

-- for an `n` that does not lead before the vector
unfoldable pub minus : PairIter → ℕ → PairIter
unfolding gap
minus i n = record i { iter = i.iter - n * gap i }

-- `a - b` for an `a` that is not before `b`
unfoldable pub distance : PairIter → PairIter → ℕ
unfolding gap
distance a b = (a.iter - b.iter) / gap a

unfoldable pub before : PairIter → PairIter → Bool
before a b = ltb a.iter b.iter

unfoldable pub iter_eq : PairIter → PairIter → Bool
iter_eq a b = a.iter == b.iter

unfoldable pub iter_ne : PairIter → PairIter → Bool
iter_ne a b = not (a.iter == b.iter)

-- `PairIter<first>` as the range that `PermVector::build` walks
abbrev pub pair_range : Bool → ForwardIt
pair_range first = record {
  Iter = PairIter;
  deref = deref first;
  key = key;
  next = next;
  before = before;
  distance = λ begin end. distance end begin;
}

abbrev pub iter_begin : List Pair → PairIter
iter_begin cells = record { cells = cells; iter = 0; skip = 0 }

abbrev pub iter_end : List Pair → PairIter
iter_end cells = record { cells = cells; iter = length cells; skip = 0 }
