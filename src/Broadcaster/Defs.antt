-- ===== src/Broadcaster/Defs.antt =====
-- The broadcaster's state and operations. The entry of a type is an object that the promises of its
-- reads refer to, also after its directory was given up and taken again: `serial` tells whose it is.
-- A value that is read and a callback are numbers.
mod State
mod Subscribing
mod Reads
unfoldable pub use State.*
unfoldable pub use Subscribing.*
unfoldable pub use Reads.*
