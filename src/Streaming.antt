-- ===== src/Streaming.antt =====
-- apps/web/src/contexts/channel/handlers/streaming.ts: how the web client puts a turn of the assistant
-- together from the events of its stream, and from the message that follows.
pub mod Turns
pub mod Chunks
pub mod Assistant
pub mod Accumulation
pub mod Growth
pub mod Stream
pub mod Outline
pub mod Patching
mod Tests
