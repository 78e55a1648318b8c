-- ===== src/Tree.antt =====
-- src/tree.rs: `BfTree`.
pub mod SizeClasses
pub mod Records
