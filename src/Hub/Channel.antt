-- ===== src/Hub/Channel.antt =====
-- apps/server/src/socket/channel.ts: one channel, with the runner of its process. What the zod
-- schemas make of a payload is an argument, `none` where they refuse it.
pub mod Defs
pub mod Lifecycle
pub mod Session
