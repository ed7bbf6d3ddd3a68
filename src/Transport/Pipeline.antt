-- ===== src/Transport/Pipeline.antt =====
-- packages/transport/src/pipeline.ts, the middleware in packages/transport/src/middleware, and
-- WsTransport.runMiddleware: which requests are accepted, and what runs beside a connection.
pub mod Defs
pub mod Admission
pub mod Guards
pub mod Heartbeat
mod Tests
