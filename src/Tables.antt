-- ===== src/Tables.antt =====
-- src/tables: the disk-based tables.
pub mod Format
pub mod Sorting
pub mod SortedU64Index
pub mod Entries
pub mod BlobTable
pub mod GraphTable
pub mod U64Set
pub mod CoordTable
pub mod Wkb
pub mod GeometryStore
pub mod GeometryTable
pub mod Records
