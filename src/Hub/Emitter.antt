-- ===== src/Hub/Emitter.antt =====
-- apps/server/src/socket/channel-emitter.ts: the subscribers of events, and which socket follows
-- which channel. A socket object is known by a number, its identity; its id is passed along with
-- it. A handler is known by a number too, and what it does when it is called is a parameter.
pub mod Defs
pub mod Membership
pub mod Tracking
pub mod Delivery
