-- ===== src/Storage.antt =====
-- src/storage.rs: `PageLocation`. A page in memory is named by its pointer, a base page by its offset.
use bf_tree.Common.{ℕ}

pub data PageLocation : Type 0 where
  mini full base : ℕ → PageLocation
  null : PageLocation
