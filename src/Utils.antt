-- ===== src/Utils.antt =====
-- src/utils: the lock of the pages, and the table of page ids.
pub mod RwLock
pub mod MappingTable
