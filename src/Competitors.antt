-- ===== src/Competitors.antt =====
-- src/competitors: secondary indexes over containers of other projects, which the model takes as
-- parameters.
pub mod BTree
pub mod RobinHash
pub mod Fast64
pub mod Art
