-- ===== src/Files.antt =====
-- packages/filesystem: which paths lie within a root, and the file system that only serves such paths.
pub mod Path
pub mod Within
pub mod Guard
mod Tests
