-- ===== src/Hub/Recorder.antt =====
-- apps/server/src/socket/raw-recorder.ts and raw-classifier.ts: how the raw lines of a process reach
-- the store. A line comes with what `JSON.parse` makes of it; the store, a parameter, numbers what is
-- handed to it in order. A task is a chain of promises that waits for the store.
pub mod Defs
pub mod Order
