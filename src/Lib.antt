-- ===== src/Lib.antt =====
-- LearnedSecondaryIndex: an index over an unsorted range, which stores for each key, in key order, its
-- displacement in the range, and finds a position by a learned model of the keys' distribution.
--
-- The parts and their files:
-- - Lsi/ models `LearnedSecondaryIndex` (include/lsi.hpp). Lsi/Index.antt has its members and `fit`:
--   the pairs of keys and displacements are sorted, packed by `PermVector::build`, and the model is
--   trained; `error_loop` is the loop that determines `max_error`. Lsi/PairIter.antt and
--   Lsi/PermIter.antt are the two iterator classes, one function for each operator. Lsi/Lookup.antt is
--   `lookup`: `linear_search` and `binary_search` are the loops between which
--   `force_linear_search || fingerprint_size > 0` chooses, `settle` is the code behind them,
--   `skip_smaller` the loop of a lower bound lookup in it. The counters, which `lookup` writes through
--   a cast, are returned with the index. Lsi/View.antt is the abstract view of a fitted index,
--   Lsi/Fit.antt and its children are about `fit`, Lsi/Lookup/ about the loops and about `lookup` over
--   the view, Lsi/Correct.antt, Lsi/Occurrences.antt and Lsi/Contract.antt about both together,
--   Lsi/Agreement.antt about two instances and Lsi/Accesses.antt about the counters.
-- - PermVector.antt models `PermVector` (include/util/permvector.hpp), PermVector/Iterator.antt its
--   `PermIterator`, Fingerprinter.antt include/util/fingerprinter.hpp.
-- - Support.antt models include/util/support.hpp: `lower_bound`, `ffs`, `ctz` and `clz` with the
--   compiler's builtins as parameters, and the loop of `bitreverse`, which a compiler without the
--   builtins runs.
-- - Competitors/ models src/competitors/btree.hpp, hash.hpp and fast64.hpp.
-- - Competitors/Art/ models the adaptive radix tree of src/competitors/art.hpp, for keys of 64 bits.
--   Art/Node.antt has the types of nodes, Art/Children.antt `findChild` and `insertNode4` to
--   `insertNode256`, Art/Heap.antt the allocated nodes with the accesses through `Node *` and
--   `Node **`, Art/Iterator.antt the iterator with `next` and `minimum_it`, Art/Prefix.antt
--   `prefixMismatch`, `leafMatches` and `maximum`, Art/Search.antt `bound` and the lookups,
--   Art/Insert.antt and Art/Erase.antt `insert` and `erase`, Art/Index.antt the interface.
--   Art/Contract.antt says what the types of nodes promise; Art/Growth.antt, with the files from
--   Art/Sorted.antt on that it uses, is about the insertion of a child into a node, Art/Successor.antt
--   about `bound` and `next` in one node, Art/Bytes.antt, Art/KeyOrder.antt and Art/Single.antt about the
--   order of the keys, Art/Duplicates.antt about equal keys. Art/Subtree.antt says when a pointer stands
--   for a tree with given leaves, Art/Cursor.antt and Art/Kids.antt which of them are behind a position
--   in a node, Art/Position.antt which are before an iterator; Art/Steps.antt and Art/Walk.antt are about
--   `next`, Art/Bound.antt to Art/BoundNode.antt about `bound`, Art/Selection.antt and
--   Art/Increasing.antt about the leaves' keys, Art/Lookup.antt about `lookup`. Art/Footprint.antt adds the
--   addresses of a tree's nodes, Art/HeapLaws.antt, Art/Links.antt and Art/Slot.antt are about stores,
--   Art/Focus.antt and Art/Add.antt about a new child of a node, Art/Fork.antt and Art/LeafSplit.antt
--   about `insert` at a leaf, Art/Replace.antt, Art/NewChild.antt, Art/Apartness.antt and
--   Art/OldChild.antt about `insert` at a node.
-- - Datasets/Parse.antt is `dataset::load` (src/support/datasets.hpp), Datasets/Cache.antt
--   `dataset::load_cached` with its static variables as a `Store`, Datasets/Laws.antt and
--   Datasets/Shape.antt what it keeps and returns, ProbingSet.antt
--   src/support/probing_set.hpp.
-- - Benchmarks.antt has the drivers EqualityProbe and LowerboundLookup (src/benchmarks.hpp) over any
--   index with their interface (`BenchIndex`); Benchmarks/Equality.antt states what an index has to
--   promise, Benchmarks/Lsi.antt fills that in for `LearnedSecondaryIndex`, and
--   Benchmarks/Lowerbound.antt is about LowerboundLookup over it.
-- - Common/ has the shared helpers, Instances/ small implementations of the parameters, Examples/ runs
--   and examples.
--
-- Parameters, for code that is not in the repository: the bit-packing library in
-- include/util/bitpacking, a copy of google/cuckoo-index (`BitPacking`: what was stored is read back),
-- the hash of the fingerprinter (`Hasher`), the CDF models of learned_hashing (`CdfModel`, without any
-- law), `std::sort` (`StdSort`), the containers of tlx and tsl and the tree of fast64 (`BTreeMultimap`,
-- `RobinMap`, `Fast64Tree`), and the random sources (`Random`).
--
-- Keys, displacements and counters are natural numbers, and the `int` of a uniform draw is its 32 bits.
-- `size_t` arithmetic that could wrap is written with `add64` and `sub64`, modulo 2 ^ 64. A run of code
-- is a `Run`: a value, `out_of_bounds` for a read outside a vector or the base data, or `out_of_fuel`.
-- Each loop of `lookup` gets one round of fuel more than its interval is long, `skip_smaller` one more
-- than the vector is long, and `lower_bound` one more than its range is long; every round shortens what
-- is left, so that these are enough. The wrap of a probe's position in the benchmarks gets one round
-- more than the position. `gap` in `load_cached` repeats a random draw, so its fuel is an argument and
-- running out of it a result.
--
-- In the radix tree, the nodes stand in a list, in the order in which they were allocated, and a pointer
-- is a word: 0, an even address of a node, or an odd pseudo-leaf. A deleted node and bytes that were not
-- initialised are not there, so an access to them is `out_of_bounds`, as is `top()` of an empty stack and
-- a write to `nullNode`. A tree over keys of 16 bytes has at most `levels` levels, each with one byte of
-- the key at least, and `next` looks at every child slot and every leaf at most once (`rounds`).
--
-- A PermIter holds the vector that its reference points to; it is not meant to outlive a later `fit`.
-- Not modelled: the output operators and the builtin `ctz` of src/competitors/art.hpp, the
-- registration macros of src/benchmarks.cpp, names and labels, timing, the floating point of the normal
-- distribution and of `insert_end`, assertions, and memory management.
pub mod Common
pub mod Bitpacking
pub mod Fingerprinter
pub mod PermVector
pub mod Config
pub mod Lsi
pub mod Support
pub mod Competitors
pub mod Random
pub mod ProbingSet
pub mod Datasets
pub mod Benchmarks
pub mod Instances
mod Examples
