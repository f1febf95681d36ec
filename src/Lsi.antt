-- ===== src/Lsi.antt =====
-- include/lsi.hpp: the learned secondary index.
pub mod PairIter
pub mod PermIter
pub mod Index
pub mod Lookup
pub mod View
pub mod Fit
pub mod Order
pub mod Correct
pub mod Occurrences
pub mod Contract
pub mod Accesses
pub mod Agreement
