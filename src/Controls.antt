-- ===== src/Controls.antt =====
-- The questions of the process to the user: apps/server/src/socket/handlers/permission.ts, and in the
-- browser apps/web/src/contexts/channel/handlers/permission.ts and ChannelControlContext.tsx.
pub mod Server
pub mod Client
pub mod Answers
pub mod Review
mod Tests
