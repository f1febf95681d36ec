-- ===== src/Datasets.antt =====
-- src/support/datasets.hpp: the datasets of the benchmarks.
pub mod Parse
pub mod Cache
pub mod Laws
pub mod Shape
