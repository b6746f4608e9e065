-- ===== src/Storage/Search.antt =====
-- Full-text search: `SearchLongTermMemory` of src/storage/sqlite_store.cpp and its helpers.
pub mod Like
pub mod Query
pub mod Hits
pub mod Rows
pub mod Run
pub mod Order
pub mod Shows
pub mod Steps
pub mod Origin
pub mod Visible
pub mod Fallback
