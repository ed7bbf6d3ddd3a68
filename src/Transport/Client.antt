-- ===== src/Transport/Client.antt =====
-- packages/transport/src/ws-client.ts: the reconnecting client.
pub mod Defs
pub mod Outbox
pub mod Settling
pub mod Pending
pub mod Backoff
pub mod Stale
