-- ===== src/Hub/Tracker.antt =====
-- apps/server/src/socket/control-request-tracker.ts: the control requests in both directions. The
-- random id of an outbound request is an argument, and a timer is known by the id of its request.
pub mod Defs
pub mod Ledger
