-- ===== src/Transport/Registry.antt =====
-- packages/transport/src/middleware/resumable.ts: the resumable sockets by session key, and the timers
-- that give them up after their connection was lost.
pub mod Defs
pub mod Keeping
mod Tests
