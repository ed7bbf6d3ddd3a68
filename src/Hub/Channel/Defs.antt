-- ===== src/Hub/Channel/Defs.antt =====
-- The channel's state and operations.
mod State
mod Runner
unfoldable pub use State.*
unfoldable pub use Runner.*
