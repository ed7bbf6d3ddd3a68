-- ===== src/Topics.antt =====
-- packages/utils/src/topic-emitter.ts: subscribers by topic, each with a count of its subscriptions.
-- The closure that `subscribe` returns is known by its number, and its `active` flag is state.
pub mod Defs
pub mod Counting
mod Tests
