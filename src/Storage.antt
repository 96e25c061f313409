-- ===== src/Storage.antt =====
-- src/storage: tables, their index, and the catalog.
pub mod Table
pub mod StlmapIndex
pub mod Index
pub mod Catalog
