-- ===== src/Transport/Rpc.antt =====
-- packages/transport/src/rpc-channel.ts: requests, events and their answers over one socket. A call
-- is known by the number that `nextId` had when it was made, and its timer by the same number. What
-- an operation does outside the channel is the list of effects that it returns, in order.
pub mod Defs
pub mod Ledger
pub mod Keeping
pub mod Settlement
