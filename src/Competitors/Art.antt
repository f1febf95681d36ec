-- ===== src/Competitors/Art.antt =====
-- src/competitors/art.hpp: an index in an adaptive radix tree, for keys of 64 bits.
pub mod Node
pub mod Children
pub mod Heap
pub mod Sorted
pub mod Indices
pub mod Iterator
pub mod Prefix
pub mod Bytes
pub mod Search
pub mod Contract
pub mod First
pub mod Room
pub mod Place
pub mod PlaceIndexed
pub mod Spread
pub mod Gather
pub mod Growth
pub mod After
pub mod Cursor
pub mod Subtree
pub mod Kids
pub mod Position
pub mod Steps
pub mod Walk
pub mod KeyOrder
pub mod Selection
pub mod Bound
pub mod BoundSteps
pub mod Increasing
pub mod BoundLoop
pub mod BoundNode
pub mod Lookup
pub mod HeapLaws
pub mod Footprint
pub mod Focus
pub mod SlotWrite
pub mod Slot
pub mod SamePrefix
pub mod Add
pub mod Fork
pub mod Links
pub mod Added
pub mod LeafSplit
pub mod Replace
pub mod NewChild
pub mod Apartness
pub mod OldChild
pub mod Successor
pub mod Insert
pub mod Duplicates
pub mod Erase
pub mod Index
pub mod Single
