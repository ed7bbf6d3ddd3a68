-- ===== src/Hub/Manager.antt =====
-- apps/server/src/socket/channel-manager.ts: the channels by their ids, and what their owner does
-- with them. The factory of the runners gives a process, which is a parameter: its answer to a kill
-- and the random id of its first request are arguments. `resolve` of node:path is a parameter too.
pub mod Defs
pub mod Creation
pub mod Destruction
pub mod Lookup
pub mod Unwatched
