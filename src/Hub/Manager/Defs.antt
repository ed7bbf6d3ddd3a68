-- ===== src/Hub/Manager/Defs.antt =====
-- The manager's state and operations.
mod Registry
mod Sockets
unfoldable pub use Registry.*
unfoldable pub use Sockets.*
