-- ===== src/Config.antt =====
-- Paths and files, as common/src/config.rs and common/src/file_utils.rs use them.
pub mod Files
pub mod Tls
pub mod Location
pub mod Stored
