-- ===== src/Hub/Emitter/Defs.antt =====
-- The emitter's state and operations.
mod Dispatch
mod Sockets
unfoldable pub use Dispatch.*
unfoldable pub use Sockets.*
