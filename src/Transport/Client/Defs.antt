-- ===== src/Transport/Client/Defs.antt =====
-- The client's state and its operations. WebSocket objects are known by the order of their making,
-- and what the platform does to them is a happening. Random ids and the random jitter of a delay
-- are arguments. What an operation does outside the client is the list of effects that it returns.
mod State
mod Sending
mod Receiving
unfoldable pub use State.*
unfoldable pub use Sending.*
unfoldable pub use Receiving.*
