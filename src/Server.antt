-- ===== src/Server.antt =====
-- The server: src/server.
pub mod Options
pub mod Cli
