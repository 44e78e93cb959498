-- ===== src/Store.antt =====
-- store/: the records that are kept, and the store that keeps them in memory.
pub mod Records
pub mod Table
pub mod JsonStore
