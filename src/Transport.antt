-- ===== src/Transport.antt =====
-- packages/transport: the resumable WebSocket transport.
pub mod Resumable
pub mod Envelope
pub mod Rpc
pub mod Client
pub mod Wire
pub mod Loop
pub mod Pipeline
pub mod Registry
mod Tests
mod ClientTests
