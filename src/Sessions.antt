-- ===== src/Sessions.antt =====
-- packages/session-store/src: the transcripts that a provider writes, one JSON value on each line, read
-- into events and written again.
pub mod Defs
pub mod Transcripts
pub mod Writing
pub mod Import
mod Tests
