-- ===== src/Timeline.antt =====
-- apps/web/src/utils/timeline-utils.ts: how the messages of a conversation are gathered into runs that
-- fold, and the chips that sum up a run.
pub mod Defs
pub mod Runs
pub mod Chips
mod Tests
