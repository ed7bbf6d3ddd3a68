-- ===== src/Hub.antt =====
-- apps/server/src/socket: the channels of the server, one for each process of a provider, and the
-- sockets of the browsers that follow them.
pub mod Tracker
pub mod Channel
pub mod Emitter
pub mod Manager
pub mod Recorder
mod Tests
mod SocketTests
