-- ===== src/Transport/Wire.antt =====
-- packages/transport/src/ws-transport.ts and middleware/resumable.ts: the server's side of a
-- connection, its numbering of events, and a session over several connections.
pub mod Defs
pub mod Session
pub mod Delivery
pub mod Redelivery
pub mod Repetition
pub mod Server
pub mod Entrance
