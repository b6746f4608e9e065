-- ===== src/Consolidation.antt =====
-- src/consolidation: from events to long-term memory.
pub mod Batch
pub mod Writer
pub mod Service
pub mod Sound
pub mod Resume
pub mod Atomic
pub mod Progress
pub mod Counts
pub mod Rules
pub mod Model
pub mod Log
