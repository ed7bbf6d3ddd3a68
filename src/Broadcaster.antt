-- ===== src/Broadcaster.antt =====
-- packages/broadcaster/src/broadcaster.ts: one set of sources for each working directory, shared by
-- the subscribers of the directory, who are told every value that is read.
pub mod Defs
mod Factories
mod Opening
mod Quiet
pub mod Sources
pub mod Updates
mod Views
mod Tests
