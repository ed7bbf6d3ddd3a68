-- ===== src/Router.antt =====
-- apps/web/src/contexts/channel/socket-router.ts: one listener on the socket for each event, shared by
-- all who want it.
pub mod Defs
pub mod Sharing
mod Wanted
mod Tests
