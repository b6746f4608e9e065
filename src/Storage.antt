-- ===== src/Storage.antt =====
-- src/storage: the SQLite store.
pub mod Tables
pub mod Engine
pub mod Reads
pub mod Events
pub mod Payloads
pub mod Entities
pub mod Relations
pub mod Summaries
pub mod Cursors
pub mod Transaction
pub mod LongTerm
pub mod Search
pub mod Stats
pub mod Post
pub mod Invariant
