-- ===== src/Tree.antt =====
-- thruster/src/parser/tree.rs: the route tree.
pub mod Params
pub mod Node
pub mod Children
pub mod Match
pub mod Insert
pub mod Commit
pub mod Graft
pub mod Merge
pub mod Print
pub mod Route
