-- ===== src/Payload.antt =====
-- The payload service: src/core/payload_service.cpp, src/utils/path_util.cpp and
-- src/utils/file_util.cpp.
pub mod Disk
pub mod Paths
pub mod Names
pub mod Cleanup
pub mod Write
pub mod Read
pub mod Files
pub mod Steps
pub mod Atomic
pub mod Outcome
pub mod RoundTrip
pub mod Confined
pub mod Keeps
pub mod Durable
